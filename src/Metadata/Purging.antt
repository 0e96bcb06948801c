-- ===== src/Metadata/Purging.antt =====
-- `commit_history_trash_purge` of apps/sync-server/src/metadata.rs, and the queue that it fills.
use codex_session_sync.Prelude.{
  Bool, List, [], any, contains, ensure, eqb, err, false, filter, find, none, not, ok, some, suc,
  true, update_where, ℕ, ◌&&◌, ◌++◌, ◌==◌, ◌>>=◌, ◌>>◌, ◌∷◌, nat_eq, string_eq, option_eq,
}
use codex_session_sync.Metadata.Tables.{
  revision_conflict, sql_integer, GcRow, M, Time, Uuid, StorageObjectRef, Tables, Revision,
  OperationState, RevisionState, GcState, is_trashed, operation_is_active,
}
use codex_session_sync.Metadata.Reachability.{key_eq, key_of, reachable_objects}
use codex_session_sync.Metadata.Purge.{
  build_history_trash_purge_plan, HistoryTrashPurgePlan, insert_object,
}

-- A trashed revision that the operation holds.
abbrev pub is_held : Uuid → Uuid → Revision → Bool
is_held ns op r = r.namespace_id == ns && (r.trash_operation_id == some op && is_trashed r.state)

-- The three statements for one operation.
unfoldable pub purge_operation : Uuid → Uuid → Tables → Tables
purge_operation ns op s = record s {
  revision_roots =
      filter (λ root. not (any (λ r. r.id == root.revision_id && is_held ns op r) s.revisions))
        s.revision_roots;
  revisions =
      update_where (is_held ns op) (λ r. record r { state = RevisionState.purged }) s.revisions;
  operations =
      update_where (λ o. o.namespace_id == ns && (o.id == op && operation_is_active o.state))
        (λ o. record o { state = OperationState.purged }) s.operations;
}

unfoldable pub purge_operations : Uuid → List Uuid → Tables → Tables
purge_operations ns [] s = s
purge_operations ns (op ∷ ops) s = purge_operations ns ops (purge_operation ns op s)

unfoldable pub object_set : List StorageObjectRef → List StorageObjectRef → List StorageObjectRef
object_set [] found = found
object_set (a ∷ as') found = object_set as' (insert_object a found)

abbrev pub purge_row : (ℕ → Uuid) → ℕ → Uuid → Time → StorageObjectRef → GcRow
purge_row fresh i op now object = record {
  id = fresh i;
  operation_id = op;
  object = object;
  state = GcState.pending;
  created_at = now;
  delete_after_quarantine = true;
}

-- The loop over the unique objects.
unfoldable pub purge_rows :
    (ℕ → Uuid) → ℕ → Uuid → Time → Tables → List StorageObjectRef → M (List GcRow)
purge_rows fresh i op now s [] = ok []
purge_rows fresh i op now s (object ∷ objects) =
    elim (contains (reachable_objects s now) (key_of object)) [
      | true ↦ purge_rows fresh i op now s objects
      | false ↦ elim (find (λ o. o.key == key_of object) s.objects) [
        | none ↦ purge_rows fresh i op now s objects
        | some stored ↦ elim (eqb stored.byte_length object.byte_length) [
          | false ↦ err revision_conflict
          | true ↦ do
            sql_integer object.byte_length
            rows ← purge_rows fresh (suc i) op now s objects
            ok (purge_row fresh i op now object ∷ rows)
        ]
      ]
    ]

unfoldable pub enqueue_gc_objects_for_purge :
    (ℕ → Uuid) → Uuid → Time → List StorageObjectRef → Tables → M (Tables × List GcRow)
enqueue_gc_objects_for_purge fresh op now objects s = do
  rows ← purge_rows fresh 0 op now s (object_set objects [])
  ok (record s { gc_queue = s.gc_queue ++ rows }, rows)

unfoldable pub refs_beq : List StorageObjectRef → List StorageObjectRef → Bool
refs_beq [] [] = true
refs_beq [] (b ∷ bs) = false
refs_beq (a ∷ as') [] = false
refs_beq (a ∷ as') (b ∷ bs) =
    (key_of a == key_of b && eqb a.byte_length b.byte_length) && refs_beq as' bs

unfoldable pub uuids_beq : List Uuid → List Uuid → Bool
uuids_beq [] [] = true
uuids_beq [] (b ∷ bs) = false
uuids_beq (a ∷ as') [] = false
uuids_beq (a ∷ as') (b ∷ bs) = eqb a b && uuids_beq as' bs

unfoldable pub plan_beq : HistoryTrashPurgePlan → HistoryTrashPurgePlan → Bool
plan_beq a b =
    uuids_beq a.operation_ids b.operation_ids
    && (eqb a.revision_count b.revision_count && refs_beq a.candidate_objects b.candidate_objects)

-- `fresh` gives the identifiers of the rows, `op` that of their operation.
unfoldable pub commit_history_trash_purge :
    (ℕ → Uuid)
    → Uuid
    → Uuid
    → HistoryTrashPurgePlan
    → Time
    → Tables
    → M (Tables × HistoryTrashPurgePlan × List GcRow)
commit_history_trash_purge fresh op ns expected now s = do
  current ← build_history_trash_purge_plan ns expected.operation_ids false s
  ensure (plan_beq current expected) revision_conflict
  result ←
      enqueue_gc_objects_for_purge fresh op now current.candidate_objects
        (purge_operations ns current.operation_ids s)
  ok (result.0, current, result.1)
