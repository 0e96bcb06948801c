-- ===== src/Metadata/History.antt =====
-- History rewriting of apps/sync-server/src/metadata.rs: `truncate_history` walks from the head to an
-- ancestor and moves what it passes to the trash; `restore_history_trash` brings it back.
use codex_session_sync.Prelude.{
  List, Option, [], ensure, err, false, find, if◌then◌else◌, length, ltb, none, not, ok, ok_or,
  some, suc, true, update_where, zero, ℕ, ◌&&◌, ◌+◌, ◌==◌, ◌>>=◌, ◌>>◌, ◌∷◌, nat_eq, string_eq,
  option_eq,
}
use codex_session_sync.Metadata.Tables.{
  Uuid, Hash, Time, Namespace, Tables, Revision, RevisionState, M, OperationState, TrashOperation,
  head_mismatch, epoch_mismatch, revision_conflict, operation_not_found, is_active,
  operation_is_active, next_epoch, read_namespace,
}

-- SELECT parent_revision FROM revisions WHERE id AND namespace_id AND state = 'active'
unfoldable pub active_parent : Tables → Uuid → Hash → Option (Option Hash)
active_parent s ns id =
    elim (find (λ r. r.id == id && (r.namespace_id == ns && is_active r.state)) s.revisions) [
      | none ↦ none
      | some r ↦ some r.parent_revision
    ]

-- The `while cursor != new_head` loop, which returns the revisions passed. It stops with an error when
-- more than `depth` of them were passed, so `depth` is its fuel: the source has 100 000.
unfoldable pub walk : Tables → Uuid → Option Hash → ℕ → Option Hash → M (List Hash)
walk s ns new_head zero cursor = if cursor == new_head then ok [] else err revision_conflict
walk s ns new_head (suc depth) cursor = elim (cursor == new_head) [
  | true ↦ ok []
  | false ↦ elim cursor [
    | none ↦ err revision_conflict
    | some id ↦ elim (active_parent s ns id) [
      | none ↦ err revision_conflict
      | some parent ↦ do rest ← walk s ns new_head depth parent; ok (id ∷ rest)
    ]
  ]
]

abbrev pub max_depth : ℕ
max_depth = 100000

-- 30 days
abbrev pub retention : ℕ
retention = 2592000000

abbrev pub trash_row : Uuid → Revision → Revision
trash_row op r = record r { state = RevisionState.trashed; trash_operation_id = some op }

abbrev pub restore_row : Revision → Revision
restore_row r = record r { state = RevisionState.active; trash_operation_id = none }

-- The loop of UPDATE revisions … WHERE id = ?2 AND state = 'active'
unfoldable pub trash_revisions : List Hash → Uuid → List Revision → List Revision
trash_revisions [] op rows = rows
trash_revisions (id ∷ ids) op rows =
    trash_revisions ids op (update_where (λ r. r.id == id && is_active r.state) (trash_row op) rows)

-- UPDATE revisions … WHERE trash_operation_id = ?1
unfoldable pub restore_revisions : Uuid → List Revision → List Revision
restore_revisions op = update_where (λ r. r.trash_operation_id == some op) restore_row

-- UPDATE namespaces SET head_revision, namespace_epoch, updated_at WHERE id = ?4
unfoldable pub set_head : Uuid → Option Hash → ℕ → Time → List Namespace → List Namespace
set_head ns head epoch now =
    update_where (λ m. m.id == ns)
      (λ m. record m { head = head; namespace_epoch = epoch; updated_at = now })

-- `op` is the fresh identifier of the operation.
unfoldable pub truncate_history :
    Uuid → Option Hash → ℕ → Option Hash → Uuid → Time → Tables → M (Tables × TrashOperation)
truncate_history ns expected_head expected_epoch new_head op now s = do
  n ← read_namespace s ns
  ensure (n.head == expected_head) (head_mismatch n.head)
  ensure (n.namespace_epoch == expected_epoch) (epoch_mismatch n.namespace_epoch)
  ensure (not (n.head == new_head)) revision_conflict
  removed ← walk s ns new_head max_depth n.head
  epoch_after ← next_epoch n.namespace_epoch
  let operation : TrashOperation = record {
    id = op;
    namespace_id = ns;
    old_head = n.head;
    new_head = new_head;
    epoch_before = n.namespace_epoch;
    epoch_after = epoch_after;
    created_at = now;
    expires_at = now + retention;
    revision_count = length removed;
    state = OperationState.active;
  }
  let t : Tables = record s {
    revisions = trash_revisions removed op s.revisions;
    operations = operation ∷ s.operations;
    namespaces = set_head ns new_head epoch_after now s.namespaces;
  }
  ok (t, operation)

-- SELECT … FROM revision_trash_operations WHERE id = ?1 AND namespace_id = ?2
unfoldable pub find_operation : Tables → Uuid → Uuid → Option TrashOperation
find_operation s ns op = find (λ o. o.id == op && o.namespace_id == ns) s.operations

unfoldable pub restore_history_trash :
    Uuid → Uuid → Option Hash → ℕ → Time → Tables → M (Tables × TrashOperation)
restore_history_trash ns op expected_head expected_epoch now s = do
  n ← read_namespace s ns
  ensure (n.head == expected_head) (head_mismatch n.head)
  ensure (n.namespace_epoch == expected_epoch) (epoch_mismatch n.namespace_epoch)
  operation ← ok_or (find_operation s ns op) (operation_not_found op)
  ensure
      (operation_is_active operation.state
        && (operation.new_head == n.head && ltb now operation.expires_at))
      revision_conflict
  epoch ← next_epoch expected_epoch
  let t : Tables = record s {
    revisions = restore_revisions op s.revisions;
    namespaces = set_head ns operation.old_head epoch now s.namespaces;
    operations =
        update_where (λ o. o.id == op) (λ o. record o { state = OperationState.restored })
          s.operations;
  }
  ok (t, record operation { state = OperationState.restored })
