-- ===== src/Metadata/RoundTrip.antt =====
-- A restore of apps/sync-server/src/metadata.rs undoes the truncation before it.
use codex_session_sync.Prelude.{
  All, List, Option, ap, arith, find, length, ok, option_beq_iff, refl, some, update_where, ℕ, ◌+◌,
  ◌<◌, ◌==◌, ◌∙◌, ◌∷◌, ◌≡◌, ◌≢◌, nat_eq, string_eq, option_eq,
}
use codex_session_sync.Metadata.Undo.{
  restore_untouched, restore-trash_revisions, find-set_head, truncate_history-Truncated, IsTidy,
}
use codex_session_sync.Metadata.History.{
  trash_revisions, set_head, restore_revisions, retention, truncate_history, find_operation,
  restore_history_trash,
}
use codex_session_sync.Metadata.Tables.{
  u64_mod, OperationState, next_epoch, read_namespace, find_namespace, Uuid, Hash, Time, Tables,
  Namespace, TrashOperation,
}

-- What a restore does when its request passes every test.
restore_accepts :
    (t : Tables) (ns op : Uuid) (head : Option Hash) (epoch : ℕ) (now : Time) (n : Namespace)
    (o : TrashOperation)
    → find_namespace t ns ≡ some n
    → n.head ≡ head
    → n.namespace_epoch ≡ epoch
    → find_operation t ns op ≡ some o
    → o.state ≡ OperationState.active
    → o.new_head ≡ n.head
    → now < o.expires_at
    → epoch + 1 < u64_mod
    → restore_history_trash ns op head epoch now t
      ≡ ok (
        record t {
          revisions = restore_revisions op t.revisions;
          namespaces = set_head ns o.old_head (epoch + 1) now t.namespaces;
          operations =
              update_where
                (λ k. k.id == op)
                (λ k. record k { state = OperationState.restored })
                t.operations;
        },
        record o { state = OperationState.restored },
      )
unfolding restore_history_trash read_namespace next_epoch
restore_accepts t ns op head epoch now n o found h e f active same early fits =
    ground (arith, option_beq_iff n.head head, option_beq_iff o.new_head n.head)

abbrev operation_of : Uuid → Namespace → List Hash → Option Hash → Uuid → Time → TrashOperation
operation_of ns n removed new_head op now = record {
  id = op;
  namespace_id = ns;
  old_head = n.head;
  new_head = new_head;
  epoch_before = n.namespace_epoch;
  epoch_after = n.namespace_epoch + 1;
  created_at = now;
  expires_at = now + retention;
  revision_count = length removed;
  state = OperationState.active;
}

-- The tables after a truncation.
abbrev truncated : Tables → Uuid → Namespace → List Hash → Option Hash → Uuid → Time → Tables
truncated s ns n removed new_head op now = record s {
  revisions = trash_revisions removed op s.revisions;
  operations = operation_of ns n removed new_head op now ∷ s.operations;
  namespaces = set_head ns new_head (n.namespace_epoch + 1) now s.namespaces;
}

-- The tables after the restore of that truncation.
abbrev undone : Tables → Uuid → Namespace → List Hash → Option Hash → Uuid → Time → Time → Tables
undone s ns n removed new_head op now later =
    let t = truncated s ns n removed new_head op now in
    record t {
      revisions = restore_revisions op t.revisions;
      namespaces = set_head ns n.head (n.namespace_epoch + 1 + 1) later t.namespaces;
      operations =
          update_where (λ k. k.id == op) (λ k. record k { state = OperationState.restored })
            t.operations;
    }

module _ (s : Tables) (ns : Uuid) (n : Namespace) (removed : List Hash) (new_head : Option Hash)
    (op : Uuid) (now later : Time) (row : find_namespace s ns ≡ some n) where
  operation_found :
      find_operation (truncated s ns n removed new_head op now) ns op
      ≡ some (operation_of ns n removed new_head op now)
  unfolding find_operation find
  operation_found = ground arith

  head_moved :
      find_namespace (truncated s ns n removed new_head op now) ns
      ≡ some
          (record n { head = new_head; namespace_epoch = n.namespace_epoch + 1; updated_at = now })
  unfolding find_namespace
  head_moved = find-set_head ns new_head (n.namespace_epoch + 1) now s.namespaces n row

  head_back :
      find_namespace (undone s ns n removed new_head op now later) ns
      ≡ some (record n { namespace_epoch = n.namespace_epoch + 1 + 1; updated_at = later })
  unfolding find_namespace
  head_back = find-set_head ns n.head (n.namespace_epoch + 1 + 1) later _ _ head_moved

-- A truncation, followed by a restore of its operation within 30 days under the head and the epoch that
-- it left, gives back the table of revisions and the head, and has raised the epoch by two; this if no
-- revision outside the trash names an operation, none names this one, and the epoch has room.
pub restore-truncate_history :
    (s t : Tables) (ns : Uuid) (eh : Option Hash) (ee : ℕ) (new_head : Option Hash) (op : Uuid)
    (now later : Time) (o : TrashOperation)
    → truncate_history ns eh ee new_head op now s ≡ ok (t, o)
    → All IsTidy s.revisions
    → All (λ r. r.trash_operation_id ≢ some op) s.revisions
    → later < now + retention
    → ee + 2 < u64_mod
    → (u : Tables) × (n : Namespace) × (restore_history_trash ns op new_head (ee + 1) later t
        ≡ ok (u, record o { state = OperationState.restored }))
      × (u.revisions ≡ s.revisions)
      × (find_namespace u ns ≡ some n)
      × (n.head ≡ eh)
      × (n.namespace_epoch ≡ ee + 2)
restore-truncate_history s t ns eh ee new_head op now later o h tidy fresh early fits =
    let (n, removed, tr) = truncate_history-Truncated s t ns eh ee new_head op now o h in
    let table : t ≡ truncated s ns n removed new_head op now =
      tr.table
      ∙ ap
          (λ k. record s {
            revisions = trash_revisions removed op s.revisions;
            operations = k ∷ s.operations;
            namespaces = set_head ns new_head (n.namespace_epoch + 1) now s.namespaces;
          })
          tr.operation in
    let epoch : n.namespace_epoch + 1 ≡ ee + 1 = ap (λ k. k + 1) tr.epoch in
    let accepted =
      restore_accepts (truncated s ns n removed new_head op now) ns op new_head
        (n.namespace_epoch + 1) later
        (record n { head = new_head; namespace_epoch = n.namespace_epoch + 1; updated_at = now })
        (operation_of ns n removed new_head op now)
        (head_moved s ns n removed new_head op now later tr.row) refl refl
        (operation_found s ns n removed new_head op now later tr.row) refl refl early
        (omega (arith, tr.epoch)) in
    (
      undone s ns n removed new_head op now later,
      record n { namespace_epoch = n.namespace_epoch + 1 + 1; updated_at = later },
      rw (table, tr.operation, ← epoch) accepted,
      restore-trash_revisions removed op s.revisions tidy ∙ restore_untouched op s.revisions fresh,
      head_back s ns n removed new_head op now later tr.row,
      tr.head,
      omega (arith, tr.epoch),
    )
