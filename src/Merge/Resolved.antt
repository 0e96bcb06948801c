-- ===== src/Merge/Resolved.antt =====
-- What `resolve_thread_sets` of crates/sync-core/src/sync.rs makes of each thread.
use codex_session_sync.Prelude.{
  List, Option, Result-cases, String, [], ap, ap₂, arith, get, if◌then◌else◌, inl, inr, is_some,
  none, ok, refl, some, sym, ◌∙◌, ◌≡◌, nat_eq, string_eq, option_eq,
}
use codex_session_sync.Merge.Bundle.{ThreadBundle}
use codex_session_sync.Merge.Maps.{find_thread-sort_threads, find_thread, thread_map-get}
use codex_session_sync.Merge.Threads.{
  sort_threads, thread_map, ThreadMergeOutcome, Digests, ThreadConflict, ThreadResolutionChoice,
  Threads, ThreadConflictResolution, or_option, merge_thread_sets, keep_local, keep_remote,
}
use codex_session_sync.Merge.Applied.{
  resolution_map_from-get, apply_resolutions-matches, apply_resolutions-find, find_resolution,
  version, picked, picked-found, or_none,
}
use codex_session_sync.Merge.Resolutions.{
  Resolutions, resolution_map_from, apply_resolutions, chosen, resolve_thread_sets,
}
use codex_session_sync.Merge.ThreeWay.{merge_thread_sets-IsMerged, IsMerged}
use codex_session_sync.Merge.Rounds.{find_conflict, thread_map-IsKeyed}

-- The values that a resolution went through.
record Resolved (local remote : List ThreadBundle) (resolutions : List ThreadConflictResolution)
    (merged : ThreadMergeOutcome) (out : List ThreadBundle) (l r : Threads) (selected : Resolutions)
    (threads : List ThreadBundle) : Type 0 where
  locals : thread_map local ≡ ok l
  remotes : thread_map remote ≡ ok r
  selects : resolution_map_from [] resolutions ≡ ok selected
  applies : apply_resolutions l r selected merged.conflicts merged.threads ≡ ok threads
  sorts : sort_threads threads ≡ out

resolve_thread_sets-Resolved :
    (digests : Digests) (base local remote : List ThreadBundle)
    (resolutions : List ThreadConflictResolution) (merged : ThreadMergeOutcome)
    (out : List ThreadBundle)
    → merge_thread_sets digests base local remote ≡ ok merged
    → resolve_thread_sets digests base local remote resolutions ≡ ok out
    → (l : Threads) × (r : Threads) × (selected : Resolutions) × (threads : List ThreadBundle)
      × Resolved local remote resolutions merged out l r selected threads
unfolding resolve_thread_sets
resolve_thread_sets-Resolved digests base local remote resolutions merged out hm h =
    elim (Result-cases (thread_map local)) [
      | inr (e, bad) ↦ absurd (ground arith)
      | inl (l, hl) ↦ elim (Result-cases (thread_map remote)) [
        | inr (e, bad) ↦ absurd (ground arith)
        | inl (r, hr) ↦ elim (Result-cases (resolution_map_from [] resolutions)) [
          | inr (e, bad) ↦ absurd (ground arith)
          | inl (selected, hs) ↦
              elim (Result-cases (apply_resolutions l r selected merged.conflicts merged.threads)) [
                | inr (e, bad) ↦ absurd (ground arith)
                | inl (threads, ha) ↦ (l, r, selected, threads, ground arith)
              ]
        ]
      ]
    ]

chosen_lem :
    (local remote : Threads) (id : String) (choice : ThreadResolutionChoice)
    → chosen local remote id choice ≡ version (get id local) (get id remote) choice
unfolding chosen version
chosen_lem local remote id keep_local = refl
chosen_lem local remote id keep_remote = refl

-- A merge gives no thread of an id that it reports a conflict of.
conflict-absent :
    (digests : Digests) (id : String) (b l r out : Option ThreadBundle)
    (found : Option ThreadConflict) (c : ThreadConflict)
    → IsMerged digests id b l r out found
    → found ≡ some c
    → out ≡ none
conflict-absent digests id b l r out found c t here = ground (arith, t.reports, t.from_neither)

-- What a resolution that goes through makes of each id. An id without a conflict has what the merge gave it.
-- An id with a conflict has a resolution of that conflict's fingerprint, and its thread is the local or
-- the remote one as the resolution chose; it is absent where that side deleted it.
pub resolve_thread_sets_lem :
    (digests : Digests) (base local remote : List ThreadBundle)
    (resolutions : List ThreadConflictResolution) (merged : ThreadMergeOutcome)
    (out : List ThreadBundle) (id : String)
    → merge_thread_sets digests base local remote ≡ ok merged
    → resolve_thread_sets digests base local remote resolutions ≡ ok out
    → (find_conflict id merged.conflicts ≡ none
        → find_thread id out ≡ find_thread id merged.threads)
      × ((c : ThreadConflict)
          → find_conflict id merged.conflicts ≡ some c
          → (x : ThreadConflictResolution) × (find_resolution id resolutions ≡ some x)
            × (x.conflict_id ≡ c.conflict_id)
            × (find_thread id out
                ≡ version (find_thread id local) (find_thread id remote) x.choice))
unfolding get
resolve_thread_sets_lem digests base local remote resolutions merged out id hm h =
    let (l, r, selected, threads, tr) =
      resolve_thread_sets-Resolved digests base local remote resolutions merged out hm h in
    let kl = thread_map-IsKeyed local l tr.locals in
    let kr = thread_map-IsKeyed remote r tr.remotes in
    let all =
      ap (find_thread id) (sym tr.sorts)
      ∙ find_thread-sort_threads id threads
      ∙ apply_resolutions-find l r selected merged.conflicts merged.threads threads id kl kr
          tr.applies in
    (
      (λ none_here.
          all
          ∙ ap
              (λ o.
                or_option (find_thread id merged.threads)
                  (if is_some o then picked l r selected id else none))
              none_here
          ∙ sym (or_none (find_thread id merged.threads))),
      λ c here.
          let (x, given, fits) =
            apply_resolutions-matches l r selected merged.conflicts merged.threads threads id c
              tr.applies here in
          let absent =
            conflict-absent digests id (find_thread id base) (find_thread id local)
              (find_thread id remote) (find_thread id merged.threads)
              (find_conflict id merged.conflicts) c
              (merge_thread_sets-IsMerged digests base local remote merged id hm) here in
          (
            x,
            sym (resolution_map_from-get id [] selected resolutions tr.selects) ∙ given,
            fits,
            all
                ∙ ap₂ (λ o d. or_option o (if is_some d then picked l r selected id else none))
                    absent here
                ∙ picked-found l r selected id x given
                ∙ chosen_lem l r id x.choice
                ∙ ap₂ (λ a b. version a b x.choice) (thread_map-get id l local tr.locals)
                    (thread_map-get id r remote tr.remotes),
          ),
    )
