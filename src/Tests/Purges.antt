-- ===== src/Tests/Purges.antt =====
-- The purge of a truncated history in apps/sync-server/src/metadata.rs at concrete inputs.
use codex_session_sync.Prelude.{
  All, Option, [], all, any, contains, false, filter, find, none, ok, refl, some, true,
  update_where, ℕ, ◌&&◌, ◌++◌, ◌+◌, ◌==◌, ◌∷◌, ◌≡◌, ◌≢◌, nat_eq, string_eq, option_eq,
}
use codex_session_sync.Metadata.History.{retention}
use codex_session_sync.Metadata.Tables.{
  sql_integer, find_namespace, read_namespace, Hash, Uuid, GcRow, TrashOperation, Tables, Revision,
  RevisionRoot, StorageObject, StorageObjectRef, StorageObjectKind, OperationState, RevisionState,
  GcState, is_trashed, find_revision, find_root,
}
use codex_session_sync.Metadata.Reachability.{
  operation_keeps, root_is_live, live_roots, close, next_target, close, reach_from, key_eq, key_of,
  reachable_objects,
}
use codex_session_sync.Metadata.Purge.{
  wire_name, insert_object, stored_objects, purge_candidates, has_revision, is_selected,
  is_purgeable, selected_revisions, insert_uuid, uuid_set, select_operations, active_operations,
  HistoryTrashPurgePlan, build_history_trash_purge_plan,
}
use codex_session_sync.Metadata.Purging.{
  object_set, enqueue_gc_objects_for_purge, purge_operation, purge_operations, refs_beq, uuids_beq,
  plan_beq, commit_history_trash_purge, purge_rows,
}
use codex_session_sync.Metadata.Doomed.{IsDoomed}
use codex_session_sync.Metadata.History.{restore_history_trash}
use codex_session_sync.Metadata.Final.{restore_history_trash-commit_history_trash_purge}
use codex_session_sync.Metadata.Swept.{commit_history_trash_purge_lem}

abbrev row : Hash → RevisionState → Option Uuid → Revision
row id state op = record {
  id = id;
  namespace_id = 1;
  parent_revision = none;
  created_at = "2026-01-01T00:00:00Z";
  manifest_byte_length = 10;
  thread_count = 1;
  object_count = 1;
  total_bytes = 10;
  state = state;
  trash_operation_id = op;
}

abbrev root_row : Hash → RevisionRoot
root_row id = record { revision_id = id; root_sha256 = id; root_schema_version = 4 }

abbrev root_object : Hash → StorageObjectRef
root_object id = record { kind = StorageObjectKind.revision_root; sha256 = id; byte_length = 10 }

abbrev stored : Hash → StorageObject
stored id = record { key = key_of (root_object id); byte_length = 10; created_at = 0 }

abbrev operation : OperationState → TrashOperation
operation state = record {
  id = 77;
  namespace_id = 1;
  old_head = some "new";
  new_head = some "old";
  epoch_before = 5;
  epoch_after = 6;
  created_at = 300;
  expires_at = 300 + retention;
  revision_count = 1;
  state = state;
}

abbrev truncated : Tables
truncated = record {
  namespaces =
      record {
        id = 1;
        display_name = [];
        head = some "old";
        namespace_epoch = 6;
        created_at = 0;
        updated_at = 300;
      }
      ∷ [];
  revisions = row "new" RevisionState.trashed (some 77) ∷ row "old" RevisionState.active none ∷ [];
  revision_objects = [];
  revision_roots = root_row "new" ∷ root_row "old" ∷ [];
  operations = operation OperationState.active ∷ [];
  edges = [];
  objects = stored "new" ∷ stored "old" ∷ [];
  gc_queue = [];
}

abbrev plan : HistoryTrashPurgePlan
plan = record {
  operation_ids = 77 ∷ [];
  revision_count = 1;
  candidate_objects = root_object "new" ∷ [];
}

abbrev queued : GcRow
queued = record {
  id = 500;
  operation_id = 88;
  object = root_object "new";
  state = GcState.pending;
  created_at = 400;
  delete_after_quarantine = true;
}

abbrev swept : Tables
swept = record truncated {
  revisions = row "new" RevisionState.purged (some 77) ∷ row "old" RevisionState.active none ∷ [];
  revision_roots = root_row "old" ∷ [];
  operations = operation OperationState.purged ∷ [];
  gc_queue = queued ∷ [];
}

abbrev fresh : ℕ → Uuid
fresh i = i + 500

purges : commit_history_trash_purge fresh 88 1 plan 400 truncated ≡ ok (swept, plan, queued ∷ [])
unfolding commit_history_trash_purge build_history_trash_purge_plan read_namespace find_namespace
    find active_operations select_operations uuid_set insert_uuid all contains selected_revisions
    is_purgeable is_selected has_revision any filter purge_candidates stored_objects insert_object
    wire_name reach_from close next_target plan_beq uuids_beq refs_beq purge_operations
    purge_operation update_where enqueue_gc_objects_for_purge object_set purge_rows
    reachable_objects live_roots root_is_live find_revision operation_keeps sql_integer
purges = refl

commit_history_trash_purge_lem_example :
    All (IsDoomed swept 400) (queued ∷ [])
    × (swept.gc_queue ≡ truncated.gc_queue ++ (queued ∷ []))
    × (swept.namespaces ≡ truncated.namespaces)
    × (swept.edges ≡ truncated.edges)
    × (swept.objects ≡ truncated.objects)
    × ((id : Hash)
        → any (λ r. r.id == id && is_trashed r.state) truncated.revisions ≡ false
        → (find_revision swept id ≡ find_revision truncated id)
          × (find_root swept id ≡ find_root truncated id))
commit_history_trash_purge_lem_example =
    commit_history_trash_purge_lem fresh 88 1 plan plan 400 truncated swept (queued ∷ []) purges

names_it : contains plan.operation_ids 77 ≡ true
unfolding contains
names_it = refl

restore_history_trash-commit_history_trash_purge_example :
    restore_history_trash 1 77 (some "old") 6 450 swept
    ≢ ok (truncated, operation OperationState.restored)
restore_history_trash-commit_history_trash_purge_example =
    restore_history_trash-commit_history_trash_purge fresh 88 1 plan plan 400 truncated swept
      (queued ∷ []) 77 (some "old") 6 450 truncated (operation OperationState.restored) purges
      names_it
