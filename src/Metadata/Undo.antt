-- ===== src/Metadata/Undo.antt =====
-- What history rewriting of apps/sync-server/src/metadata.rs leaves in the tables, and that a restore
-- undoes a truncation.
use codex_session_sync.Prelude.{
  All, List, Option, Option-cases, Result-cases, [], ap, arith, find, inl, inr, length, ne→==, none,
  ok, option_beq_iff, refl, some, true, update_where, ℕ, ◌&&◌, ◌+◌, ◌<◌, ◌==◌, ◌∙◌, ◌∷◌, ◌≡◌, ◌≢◌,
  nat_eq, string_eq, option_eq,
}
use codex_session_sync.Metadata.History.{
  retention, max_depth, walk, truncate_history, trash_row, trash_revisions, restore_revisions,
  set_head,
}
use codex_session_sync.Metadata.Tables.{
  OperationState, u64_mod, next_epoch, read_namespace, find_namespace, TrashOperation, Time, Hash,
  Uuid, Revision, Namespace, Tables, is_active,
}

-- A row that is not in the trash names no trash operation.
abbrev pub IsTidy : Revision → Type 0
IsTidy r = is_active r.state ≡ true → r.trash_operation_id ≡ none

pub trash_step-IsTidy :
    (id : Hash) (op : Uuid) (rows : List Revision)
    → All IsTidy rows
    → All IsTidy (update_where (λ r. r.id == id && is_active r.state) (trash_row op) rows)
unfolding update_where
trash_step-IsTidy id op [] h = tt
trash_step-IsTidy id op (r ∷ rows) h = (ground (arith, h.0), trash_step-IsTidy id op rows h.1)

trash_step-restore :
    (id : Hash) (op : Uuid) (rows : List Revision)
    → All IsTidy rows
    → restore_revisions op (update_where (λ r. r.id == id && is_active r.state) (trash_row op) rows)
      ≡ restore_revisions op rows
unfolding restore_revisions update_where
trash_step-restore id op [] h = refl
trash_step-restore id op (r ∷ rows) h = ground (arith, h.0, trash_step-restore id op rows h.1)

pub restore-trash_revisions :
    (ids : List Hash) (op : Uuid) (rows : List Revision)
    → All IsTidy rows
    → restore_revisions op (trash_revisions ids op rows) ≡ restore_revisions op rows
unfolding trash_revisions
restore-trash_revisions [] op rows h = refl
restore-trash_revisions (id ∷ ids) op rows h =
    restore-trash_revisions ids op _ (trash_step-IsTidy id op rows h)
    ∙ trash_step-restore id op rows h

pub restore_untouched :
    (op : Uuid) (rows : List Revision)
    → All (λ r. r.trash_operation_id ≢ some op) rows
    → restore_revisions op rows ≡ rows
unfolding restore_revisions update_where
restore_untouched op [] h = refl
restore_untouched op (r ∷ rows) h =
    rw (ne→== r.trash_operation_id (some op) h.0) (ap (λ t. r ∷ t) (restore_untouched op rows h.1))

pub find-set_head :
    (ns : Uuid) (head : Option Hash) (epoch : ℕ) (now : Time) (rows : List Namespace)
    (n : Namespace)
    → find (λ m. m.id == ns) rows ≡ some n
    → find (λ m. m.id == ns) (set_head ns head epoch now rows)
      ≡ some (record n { head = head; namespace_epoch = epoch; updated_at = now })
unfolding find set_head update_where
find-set_head ns head epoch now [] n h = cc
find-set_head ns head epoch now (m ∷ rows) n h =
    ground (arith, find-set_head ns head epoch now rows n)

-- The values that an accepted truncation went through.
pub record Truncated (s t : Tables) (ns : Uuid) (eh : Option Hash) (ee : ℕ) (new_head : Option Hash)
    (op : Uuid) (now : Time) (o : TrashOperation) (n : Namespace) (removed : List Hash)
    : Type 0 where
  pub row : find_namespace s ns ≡ some n
  pub head : n.head ≡ eh
  pub epoch : n.namespace_epoch ≡ ee
  pub moved : n.head ≢ new_head
  pub walked : walk s ns new_head max_depth n.head ≡ ok removed
  pub fits : ee + 1 < u64_mod
  pub operation : o ≡ record {
    id = op;
    namespace_id = ns;
    old_head = n.head;
    new_head = new_head;
    epoch_before = n.namespace_epoch;
    epoch_after = n.namespace_epoch + 1;
    created_at = now;
    expires_at = now + retention;
    revision_count = length removed;
    state = OperationState.active;
  }
  pub table : t ≡ record s {
    revisions = trash_revisions removed op s.revisions;
    operations = o ∷ s.operations;
    namespaces = set_head ns new_head (n.namespace_epoch + 1) now s.namespaces;
  }

pub truncate_history-Truncated :
    (s t : Tables) (ns : Uuid) (eh : Option Hash) (ee : ℕ) (new_head : Option Hash) (op : Uuid)
    (now : Time) (o : TrashOperation)
    → truncate_history ns eh ee new_head op now s ≡ ok (t, o)
    → (n : Namespace) × (removed : List Hash) × Truncated s t ns eh ee new_head op now o n removed
unfolding truncate_history read_namespace next_epoch
truncate_history-Truncated s t ns eh ee new_head op now o h =
    elim (Option-cases (find_namespace s ns)) [
      | inl q ↦ ground arith
      | inr (n, q) ↦ elim (Result-cases (walk s ns new_head max_depth n.head)) [
        | inr (y, w) ↦ ground arith
        | inl (removed, w) ↦
            (n, removed, ground (arith, option_beq_iff n.head eh, option_beq_iff n.head new_head))
      ]
    ]
