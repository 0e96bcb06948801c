-- ===== src/Merge/ThreeWay.antt =====
-- What `merge_thread_sets` of crates/sync-core/src/sync.rs makes of each thread: a three-way merge.
use codex_session_sync.Prelude.{
  ==_refl, >>=-eq-ok, Bool, List, Option, String, [], arith, contains, false, get, if◌then◌else◌,
  is_some, none, ok, ok-injective, refl, some, subst, sym, true, ◌||◌, ◌∙◌, ◌≡◌, nat_eq, string_eq,
  option_eq,
}
use mathlib.Core.Path.{subst₂}
use codex_session_sync.Merge.Bundle.{ThreadBundle}
use codex_session_sync.Merge.Maps.{
  find_thread-sort_threads, thread_map-get, find_thread, merge_ids_contain,
}
use codex_session_sync.Merge.Threads.{
  insert_keys, merge_maps, ThreadMergeOutcome, or_option, conflict_of, merge_ids,
  semantic_option_eq, thread_map, merge_one, Digests, Threads, ThreadConflict, merge_thread_sets,
}
use codex_session_sync.Merge.Rounds.{
  thread_map-IsKeyed, merge_ids-conflicts, IsKeyed, find_conflict, merge_ids-threads,
}

-- A three-way merge of the versions of one thread, with the conflict reported of it.
pub record IsMerged (digests : Digests) (id : String) (b l r out : Option ThreadBundle)
    (conflict : Option ThreadConflict) : Type 0 where
  pub from_local : semantic_option_eq digests r b ≡ true → out ≡ l
  pub from_remote :
      semantic_option_eq digests l b ≡ true → semantic_option_eq digests r b ≡ false → out ≡ r
  pub from_both :
      semantic_option_eq digests l b ≡ false
      → semantic_option_eq digests r b ≡ false
      → semantic_option_eq digests l r ≡ true
      → out ≡ l
  pub from_neither :
      semantic_option_eq digests l b ≡ false
      → semantic_option_eq digests r b ≡ false
      → semantic_option_eq digests l r ≡ false
      → out ≡ none
  pub reports : conflict ≡ (
      if semantic_option_eq digests l b
        || (semantic_option_eq digests r b || semantic_option_eq digests l r)
      then none
      else some (conflict_of digests id b l r))

module _ (digests : Digests) where
  abbrev same : Option ThreadBundle → Option ThreadBundle → Bool
  same = semantic_option_eq digests

  both_kept : (b l r : Option ThreadBundle) → same r b ≡ true → same l b ≡ true → or_option l r ≡ l
  unfolding semantic_option_eq
  both_kept b (some l) r p q = refl
  both_kept none none none p q = refl
  both_kept none none (some r) p q = ground arith
  both_kept (some b) none r p q = ground arith

  merge_one-IsMerged :
      (id : String) (b l r : Option ThreadBundle)
      → IsMerged digests id b l r
          (merge_one digests id b l r).0
          (find_conflict id (merge_one digests id b l r).1)
  unfolding merge_one find_conflict conflict_of
  merge_one-IsMerged id b l r =
      let kept = both_kept b l r in
      let self = ==_refl id in
      record {
        from_local = λ p. ground arith;
        from_remote = λ p q. ground arith;
        from_both = λ p q u. ground arith;
        from_neither = λ p q u. ground arith;
        reports = ground arith;
      }

  -- An id of none of the sets.
  absent-IsMerged : (id : String) → IsMerged digests id none none none none none
  unfolding semantic_option_eq
  absent-IsMerged id = record {
    from_local = λ p. refl;
    from_remote = λ p q. refl;
    from_both = λ p q u. refl;
    from_neither = λ p q u. refl;
    reports = refl;
  }

  visited-IsMerged :
      (id : String) (b l r : Option ThreadBundle) (visited : Bool)
      → visited ≡ (is_some r || (is_some l || is_some b))
      → IsMerged digests id b l r
          (if visited then (merge_one digests id b l r).0 else none)
          (if visited then find_conflict id (merge_one digests id b l r).1 else none)
  visited-IsMerged id b l r true h = merge_one-IsMerged id b l r
  visited-IsMerged id none none none false h = absent-IsMerged id
  visited-IsMerged id (some b) none none false h = absurd (ground arith)
  visited-IsMerged id b (some l) none false h = absurd (ground arith)
  visited-IsMerged id b l (some r) false h = absurd (ground arith)

  merge_maps-IsMerged :
      (b l r : Threads) (id : String)
      → IsKeyed l
      → IsKeyed r
      → IsMerged digests id
          (get id b)
          (get id l)
          (get id r)
          (find_thread id (merge_maps digests b l r).threads)
          (find_conflict id (merge_maps digests b l r).conflicts)
  unfolding merge_maps
  merge_maps-IsMerged b l r id kl kr =
      let ids = insert_keys r (insert_keys l (insert_keys b [])) in
      let found =
        find_thread-sort_threads id (merge_ids digests b l r ids).threads
        ∙ merge_ids-threads digests b l r id ids kl kr in
      subst₂ (IsMerged digests id (get id b) (get id l) (get id r)) (sym found)
        (sym (merge_ids-conflicts digests b l r id ids))
        (visited-IsMerged id (get id b) (get id l) (get id r) (contains ids id)
          (merge_ids_contain id b l r))

-- What a merge that goes through makes of each id, by the threads of that id in the three sets, where the
-- comparison is of what `remote_thread_view` leaves of two bundles: a thread that is as in the base at
-- the remote is the local one; one that is as in the base locally and changed remotely is the remote one;
-- one that changed on both sides in the same way is the local one; one that changed differently is in
-- neither. A conflict is reported of exactly the last, with its three versions. An absent thread counts
-- as a version of its own.
pub merge_thread_sets-IsMerged :
    (digests : Digests) (base local remote : List ThreadBundle) (out : ThreadMergeOutcome)
    (id : String)
    → merge_thread_sets digests base local remote ≡ ok out
    → IsMerged digests id
        (find_thread id base)
        (find_thread id local)
        (find_thread id remote)
        (find_thread id out.threads)
        (find_conflict id out.conflicts)
unfolding merge_thread_sets
merge_thread_sets-IsMerged digests base local remote out id h =
    let (b, hb, h1) = >>=-eq-ok (thread_map base) _ h in
    let (l, hl, h2) = >>=-eq-ok (thread_map local) _ h1 in
    let (r, hr, h3) = >>=-eq-ok (thread_map remote) _ h2 in
    let t =
      merge_maps-IsMerged digests b l r id (thread_map-IsKeyed local l hl)
        (thread_map-IsKeyed remote r hr) in
    let f = λ (o : ThreadMergeOutcome).
      IsMerged digests id (find_thread id base) (find_thread id local) (find_thread id remote)
        (find_thread id o.threads) (find_conflict id o.conflicts) in
    subst f (ok-injective h3) (
      subst
        (λ x.
          IsMerged digests id x (find_thread id local) (find_thread id remote)
            (find_thread id (merge_maps digests b l r).threads)
            (find_conflict id (merge_maps digests b l r).conflicts))
        (thread_map-get id b base hb)
        (subst
          (λ x.
            IsMerged digests id (get id b) x (find_thread id remote)
              (find_thread id (merge_maps digests b l r).threads)
              (find_conflict id (merge_maps digests b l r).conflicts))
          (thread_map-get id l local hl)
          (subst
            (λ x.
              IsMerged digests id (get id b) (get id l) x
                (find_thread id (merge_maps digests b l r).threads)
                (find_conflict id (merge_maps digests b l r).conflicts))
            (thread_map-get id r remote hr) t)))
