-- ===== src/Tests/Collection.antt =====
-- The uploads and the garbage collection of apps/sync-server/src/metadata.rs at concrete inputs.
use codex_session_sync.Prelude.{
  All, List, [], any, arith, contains, false, find, none, ok, refl, some, true, ℕ, ◌<◌, ◌↔◌, ◌∷◌,
  ◌≡◌, ◌≢◌, nat_eq, string_eq, option_eq,
}
use codex_session_sync.Metadata.Tables.{
  find_revision, Time, Edge, Hash, GcRow, Key, Tables, StorageObject, StorageObjectRef,
  StorageObjectKind, RevisionState, GcState, u64_mod,
}
use codex_session_sync.Metadata.Reachability.{
  root_is_live, live_roots, next_target, close, reachable_objects, reach_from, key_eq, key_of,
}
use codex_session_sync.Metadata.Closure.{reach_from-Reaches, Reaches}
use codex_session_sync.Metadata.Gc.{
  insert_ref, sort_refs, ServerGcPlan, gc_candidates, record_storage_object, replace_object_edges,
  build_gc_plan, process_gc_entries,
}
use codex_session_sync.Metadata.Collect.{find_object}
use codex_session_sync.Metadata.Upload.{
  replace_object_edges-AreDistinct, record_storage_object_lem, AreDistinct,
}
use codex_session_sync.Metadata.Plan.{build_gc_plan-IsGarbage, IsGarbage, sum_lengths}
use codex_session_sync.Metadata.Safety.{process_gc_entries-keeps_reachable}

abbrev object : StorageObjectKind → Hash → ℕ → StorageObjectRef
object kind sha256 byte_length = record { kind = kind; sha256 = sha256; byte_length = byte_length }

abbrev root : StorageObjectRef
root = object StorageObjectKind.revision_root "r" 10

abbrev kept : StorageObjectRef
kept = object StorageObjectKind.thread "t" 20

abbrev waste : StorageObjectRef
waste = object StorageObjectKind.chunk "w" 30

abbrev stored : StorageObjectRef → StorageObject
stored o = record { key = key_of o; byte_length = o.byte_length; created_at = 0 }

abbrev edges : List Edge
edges = record { owner = key_of root; target = key_of kept } ∷ []

abbrev store : Tables
store = record {
  namespaces = [];
  revisions =
      record {
        id = "r";
        namespace_id = 1;
        parent_revision = none;
        created_at = "2026-01-01T00:00:00Z";
        manifest_byte_length = 10;
        thread_count = 1;
        object_count = 1;
        total_bytes = 20;
        state = RevisionState.active;
        trash_operation_id = none;
      }
      ∷ [];
  revision_objects = [];
  revision_roots = record { revision_id = "r"; root_sha256 = "r"; root_schema_version = 4 } ∷ [];
  operations = [];
  edges = edges;
  objects = stored root ∷ stored kept ∷ stored waste ∷ [];
  gc_queue = [];
}

abbrev digest : List StorageObjectRef → Hash
digest candidates = "d"

abbrev plan : ServerGcPlan
plan = record {
  created_at = 7200000;
  reachable_object_count = 2;
  candidates = waste ∷ [];
  reclaimable_bytes = 30;
  plan_fingerprint = "d";
}

plans : build_gc_plan digest 7200000 store ≡ ok plan
unfolding build_gc_plan gc_candidates reachable_objects reach_from close next_target live_roots
    root_is_live find_revision find sort_refs insert_ref contains
plans = refl

build_gc_plan-IsGarbage_example :
    All (IsGarbage (reachable_objects store 7200000) 7200000 store.objects) plan.candidates
    × (plan.reclaimable_bytes ≡ sum_lengths plan.candidates)
    × (plan.reclaimable_bytes < u64_mod)
build_gc_plan-IsGarbage_example = build_gc_plan-IsGarbage digest 7200000 store plan plans

reach_from-Reaches_example :
    (contains (reach_from edges (key_of root ∷ [])) (key_of kept) ≡ true)
    ↔ Reaches edges (key_of root ∷ []) (key_of kept)
reach_from-Reaches_example = reach_from-Reaches edges (key_of root ∷ []) (key_of kept)

abbrev queued : GcRow
queued = record {
  id = 1;
  operation_id = 2;
  object = waste;
  state = GcState.pending;
  created_at = 7200000;
  delete_after_quarantine = false;
}

abbrev queued_kept : GcRow
queued_kept = record queued { id = 3; object = kept }

reaches_kept : contains (reachable_objects store 9000000) (key_of kept) ≡ true
unfolding reachable_objects reach_from close next_target live_roots root_is_live find_revision find
    contains
reaches_kept = refl

abbrev rounds : List (Time × GcRow)
rounds = (7200000, queued) ∷ (8000000, queued_kept) ∷ []

process_gc_entries-keeps_reachable_example :
    (contains (reachable_objects (process_gc_entries rounds store) 9000000) (key_of kept) ≡ true)
    × (find_object (process_gc_entries rounds store) (key_of kept)
        ≡ find_object store (key_of kept))
process_gc_entries-keeps_reachable_example =
    process_gc_entries-keeps_reachable rounds store 9000000 (key_of kept)
      (omega arith, (omega arith, tt)) reaches_kept

replace_object_edges-AreDistinct_example :
    ((t : Tables) × (replace_object_edges root (waste ∷ waste ∷ []) store ≡ ok t))
    ↔ AreDistinct (waste ∷ waste ∷ [])
replace_object_edges-AreDistinct_example =
    replace_object_edges-AreDistinct root (waste ∷ waste ∷ []) store

records : record_storage_object waste 5000 store ≡ ok store
unfolding record_storage_object any
records = refl

record_storage_object_lem_example :
    ((o : StorageObject) → find_object store (key_of waste) ≡ some o → store ≡ store)
    × (find_object store (key_of waste) ≡ none
        → find_object store (key_of waste)
          ≡ some
              (record { key = key_of waste; byte_length = waste.byte_length; created_at = 5000 }))
    × ((k : Key) → k ≢ key_of waste → find_object store k ≡ find_object store k)
record_storage_object_lem_example = record_storage_object_lem waste 5000 store store records
