-- ===== src/Merge/Resolutions.antt =====
-- `resolve_thread_sets` of crates/sync-core/src/sync.rs.
use codex_session_sync.Prelude.{
  List, Option, String, [], err, get, if◌then◌else◌, insert, is_some, length, none, ok, some, ◌++◌,
  ◌==◌, ◌>>=◌, ◌∷◌, nat_eq, string_eq, option_eq,
}
use codex_session_sync.Merge.Bundle.{ThreadBundle}
use codex_session_sync.Merge.Threads.{
  keep_local, keep_remote, sort_threads, changed_conflict, conflict_set_changed, missing_resolution,
  duplicate_resolution, thread_map, ThreadResolutionChoice, Merged, ThreadConflict, Digests,
  ThreadConflictResolution, Threads, merge_thread_sets,
}

abbrev pub Resolutions : Type 0
Resolutions = List (String × ThreadConflictResolution)

unfoldable pub resolution_map_from :
    Resolutions → List ThreadConflictResolution → Merged Resolutions
resolution_map_from m [] = ok m
resolution_map_from m (x ∷ xs) =
    let rest = resolution_map_from (insert x.thread_id x m) xs in
    if is_some (get x.thread_id m) then err (duplicate_resolution x.thread_id) else rest

unfoldable pub chosen : Threads → Threads → String → ThreadResolutionChoice → Option ThreadBundle
chosen local remote id keep_local = get id local
chosen local remote id keep_remote = get id remote

unfoldable pub push_last : Option ThreadBundle → List ThreadBundle → List ThreadBundle
push_last none threads = threads
push_last (some t) threads = threads ++ t ∷ []

unfoldable pub apply_resolutions :
    Threads
    → Threads
    → Resolutions
    → List ThreadConflict
    → List ThreadBundle
    → Merged (List ThreadBundle)
apply_resolutions local remote selected [] threads = ok threads
apply_resolutions local remote selected (c ∷ cs) threads = elim (get c.thread_id selected) [
  | none ↦ err (missing_resolution c.thread_id)
  | some resolution ↦
      if resolution.conflict_id == c.conflict_id
      then apply_resolutions local remote selected cs
          (push_last (chosen local remote c.thread_id resolution.choice) threads)
      else err (changed_conflict c.thread_id)
]

unfoldable pub resolve_thread_sets :
    Digests
    → List ThreadBundle
    → List ThreadBundle
    → List ThreadBundle
    → List ThreadConflictResolution
    → Merged (List ThreadBundle)
resolve_thread_sets digests base local remote resolutions = do
  outcome ← merge_thread_sets digests base local remote
  l ← thread_map local
  r ← thread_map remote
  selected ← resolution_map_from [] resolutions
  threads ←
      if length selected == length outcome.conflicts
      then apply_resolutions l r selected outcome.conflicts outcome.threads
      else err (conflict_set_changed (length outcome.conflicts) (length selected))
  ok (sort_threads threads)
