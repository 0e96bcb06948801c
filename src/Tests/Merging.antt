-- ===== src/Tests/Merging.antt =====
-- The merge of crates/sync-core/src/sync.rs at concrete inputs, with a digest that tells titles apart.
use codex_session_sync.Prelude.{
  List, String, [], false, get, insert, none, ok, refl, some, ◌∷◌, ◌≡◌, nat_eq, string_eq,
  option_eq,
}
use codex_session_sync.Merge.Applied.{version, find_resolution}
use codex_session_sync.Merge.Bundle.{
  null, pos, int, text, ContentObject, ThreadBundle, integer_eq, object, remote_thread_view,
}
use codex_session_sync.Merge.Threads.{
  ThreadConflict, ThreadConflictResolution, keep_local, place_thread, sort_threads, push_selected,
  semantic_thread_hash, semantic_option_eq, insert_id, insert_keys, merge_one, merge_ids,
  merge_maps, thread_map_from, conflict_of, ThreadMergeOutcome, thread_map, Digests,
  merge_thread_sets,
}
use codex_session_sync.Merge.Maps.{find_thread}
use codex_session_sync.Merge.Resolutions.{
  push_last, chosen, apply_resolutions, resolution_map_from, resolve_thread_sets,
}
use codex_session_sync.Merge.Resolved.{resolve_thread_sets_lem}
use codex_session_sync.Merge.ThreeWay.{merge_thread_sets-IsMerged, IsMerged}
use codex_session_sync.Merge.Rounds.{find_conflict}
use codex_session_sync.Merge.Again.{remote_thread_view-again}

abbrev rollout : ContentObject
rollout = record {
  sha256 = "sha256:00";
  byte_length = 1;
  media_type = "application/x-ndjson";
  logical_path = none;
  source_path = some "/home/user/rollout.jsonl";
  storage = none;
}

abbrev thread : String → String → ThreadBundle
thread id title = record {
  schema_version = 1;
  thread_id = id;
  title = title;
  archived = false;
  created_at_ms = none;
  updated_at_ms = none;
  model_provider = some "openai";
  workspace = record { logical_id = none; source_path = some "/home/user/work" };
  rollout = rollout;
  related_records = record {
    source_database = none;
    tables =
        (
          "threads",
          object (
                ("cwd", text "/home/user/work")
                ∷ ("updated_at", int (pos 5))
                ∷ ("recency_at", int (pos 5))
                ∷ ("agent", null)
                ∷ [])
              ∷ [],
        )
        ∷ [];
  };
  attachments = [];
}

abbrev by_title : Digests
by_title = record { bundle = λ t. t.title; conflict = λ id kind b l r. id }

abbrev base : List ThreadBundle
base = thread "b" "old" ∷ thread "a" "same" ∷ []

abbrev local : List ThreadBundle
local = thread "b" "mine" ∷ thread "a" "same" ∷ []

abbrev remote : List ThreadBundle
remote = thread "b" "theirs" ∷ thread "a" "newer" ∷ []

abbrev outcome : ThreadMergeOutcome
outcome = record {
  threads = thread "a" "newer" ∷ [];
  conflicts =
      conflict_of by_title "b" (some (thread "b" "old")) (some (thread "b" "mine"))
        (some (thread "b" "theirs"))
      ∷ [];
}

merges : merge_thread_sets by_title base local remote ≡ ok outcome
unfolding merge_thread_sets thread_map thread_map_from get insert merge_maps merge_ids merge_one
    insert_keys insert_id semantic_option_eq semantic_thread_hash remote_thread_view push_selected
    sort_threads place_thread
merges = refl

merge_thread_sets-IsMerged_example :
    IsMerged by_title "b"
      (find_thread "b" base)
      (find_thread "b" local)
      (find_thread "b" remote)
      (find_thread "b" outcome.threads)
      (find_conflict "b" outcome.conflicts)
merge_thread_sets-IsMerged_example =
    merge_thread_sets-IsMerged by_title base local remote outcome "b" merges

remote_thread_view-again_example :
    remote_thread_view (remote_thread_view (thread "a" "same"))
    ≡ remote_thread_view (thread "a" "same")
remote_thread_view-again_example = remote_thread_view-again (thread "a" "same")

abbrev keeps_mine : List ThreadConflictResolution
keeps_mine = record { conflict_id = "b"; thread_id = "b"; choice = keep_local } ∷ []

abbrev resolved : List ThreadBundle
resolved = thread "a" "newer" ∷ thread "b" "mine" ∷ []

resolves : resolve_thread_sets by_title base local remote keeps_mine ≡ ok resolved
unfolding resolve_thread_sets resolution_map_from apply_resolutions chosen push_last
    merge_thread_sets thread_map thread_map_from get insert merge_maps merge_ids merge_one
    insert_keys insert_id semantic_option_eq conflict_of semantic_thread_hash remote_thread_view
    push_selected sort_threads place_thread
resolves = refl

resolve_thread_sets_lem_example :
    (find_conflict "b" outcome.conflicts ≡ none
      → find_thread "b" resolved ≡ find_thread "b" outcome.threads)
    × ((c : ThreadConflict)
        → find_conflict "b" outcome.conflicts ≡ some c
        → (x : ThreadConflictResolution) × (find_resolution "b" keeps_mine ≡ some x)
          × (x.conflict_id ≡ c.conflict_id)
          × (find_thread "b" resolved
              ≡ version (find_thread "b" local) (find_thread "b" remote) x.choice))
resolve_thread_sets_lem_example =
    resolve_thread_sets_lem by_title base local remote keeps_mine outcome resolved "b" merges
      resolves
