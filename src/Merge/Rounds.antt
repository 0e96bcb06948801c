-- ===== src/Merge/Rounds.antt =====
-- The rounds of the loop in `merge_thread_sets` of crates/sync-core/src/sync.rs, put together.
use codex_session_sync.Prelude.{
  ==_refl, ==→eq, Bool, List, Option, String, [], all, ap, arith, contains, false, get,
  if◌then◌else◌, none, ok, refl, some, sym, true, ◌++◌, ◌==◌, ◌||◌, ◌∙◌, ◌∷◌, ◌≡◌, nat_eq,
  string_eq, option_eq,
}
use codex_session_sync.Merge.Bundle.{ThreadBundle}
use codex_session_sync.Merge.Maps.{
  find_thread-push, find_thread-push_selected, thread_map-get, find_thread-id, find_thread,
}
use codex_session_sync.Merge.Threads.{
  or_option, conflict_of, merge_ids, semantic_option_eq, thread_map, merge_one, Digests, Threads,
  ThreadConflict,
}

-- The conflict that is reported for an id.
unfoldable pub find_conflict : String → List ThreadConflict → Option ThreadConflict
find_conflict id [] = none
find_conflict id (c ∷ cs) = if c.thread_id == id then some c else find_conflict id cs

-- The threads of a map stand under their ids.
pub record IsKeyed (m : Threads) : Type 0 where
  pub keyed : (id : String) (t : ThreadBundle) → get id m ≡ some t → t.thread_id ≡ id

pub thread_map-IsKeyed : (ts : List ThreadBundle) (m : Threads) → thread_map ts ≡ ok m → IsKeyed m
thread_map-IsKeyed ts m h = record {
  keyed = λ id t e. find_thread-id id ts t (sym (thread_map-get id m ts h) ∙ e);
}

-- The answer of a list of rounds, from the answer of the first and of the others.
joined {ℓ} :
    {A : Type ℓ} (a c : Bool) (w v all first rest : Option A)
    → all ≡ or_option first rest
    → first ≡ (if a then w else none)
    → rest ≡ (if c then v else none)
    → (a ≡ true → w ≡ v)
    → all ≡ (if a || c then v else none)
joined true true w none all first rest p q u h = p ∙ ap (λ o. or_option o rest) (q ∙ h refl) ∙ u
joined true false w none all first rest p q u h = p ∙ ap (λ o. or_option o rest) (q ∙ h refl) ∙ u
joined true c w (some x) all first rest p q u h = p ∙ ap (λ o. or_option o rest) (q ∙ h refl)
joined false c w v all first rest p q u h = p ∙ ap (λ o. or_option o rest) q ∙ u

module _ (digests : Digests) where
  abbrev same : Option ThreadBundle → Option ThreadBundle → Bool
  same = semantic_option_eq digests

  -- A round selects a thread of its id.
  selected-id :
      (id : String) (b l r : Option ThreadBundle) (t : ThreadBundle)
      → ((u : ThreadBundle) → l ≡ some u → u.thread_id ≡ id)
      → ((u : ThreadBundle) → r ≡ some u → u.thread_id ≡ id)
      → (merge_one digests id b l r).0 ≡ some t
      → t.thread_id ≡ id
  unfolding merge_one
  selected-id id b none none t hl hr h = ground arith
  selected-id id b (some l) none t hl hr h = ground (arith, hl l refl)
  selected-id id b none (some r) t hl hr h = ground (arith, hr r refl)
  selected-id id b (some l) (some r) t hl hr h = ground (arith, hl l refl, hr r refl)

  pub merge_ids-threads :
      (b l r : Threads) (id : String) (ids : List String)
      → IsKeyed l
      → IsKeyed r
      → find_thread id (merge_ids digests b l r ids).threads ≡ (
          if contains ids id
          then (merge_one digests id (get id b) (get id l) (get id r)).0
          else none)
  unfolding merge_ids contains find_thread
  merge_ids-threads b l r id [] kl kr = refl
  merge_ids-threads b l r id (j ∷ ids) kl kr =
      let one =
        find_thread-push j id (merge_one digests j (get j b) (get j l) (get j r)).0
          (λ t. selected-id j (get j b) (get j l) (get j r) t (kl.keyed j) (kr.keyed j)) in
      let rest = merge_ids-threads b l r id ids kl kr in
      let split =
        find_thread-push_selected id (merge_one digests j (get j b) (get j l) (get j r)).0
          (merge_ids digests b l r ids).threads in
      joined (j == id) (contains ids id) (merge_one digests j (get j b) (get j l) (get j r)).0
        (merge_one digests id (get id b) (get id l) (get id r)).0 _ _ _ split one rest
        (λ e. ap (λ k. (merge_one digests k (get k b) (get k l) (get k r)).0) (==→eq e))

  find_conflict-append :
      (id : String) (xs ys : List ThreadConflict)
      → find_conflict id (xs ++ ys) ≡ or_option (find_conflict id xs) (find_conflict id ys)
  unfolding find_conflict
  find_conflict-append id [] ys = refl
  find_conflict-append id (x ∷ xs) ys = ground (arith, find_conflict-append id xs ys)

  -- A round reports a conflict of its id only.
  find_conflict-one :
      (j id : String) (b l r : Option ThreadBundle)
      → find_conflict id (merge_one digests j b l r).1
        ≡ (if j == id then find_conflict j (merge_one digests j b l r).1 else none)
  unfolding find_conflict merge_one conflict_of
  find_conflict-one j id b l r = ground (arith, ==_refl j)

  pub merge_ids-conflicts :
      (b l r : Threads) (id : String) (ids : List String)
      → find_conflict id (merge_ids digests b l r ids).conflicts ≡ (
          if contains ids id
          then find_conflict id (merge_one digests id (get id b) (get id l) (get id r)).1
          else none)
  unfolding merge_ids contains find_conflict
  merge_ids-conflicts b l r id [] = refl
  merge_ids-conflicts b l r id (j ∷ ids) =
      let one = find_conflict-one j id (get j b) (get j l) (get j r) in
      let rest = merge_ids-conflicts b l r id ids in
      let split =
        find_conflict-append id (merge_one digests j (get j b) (get j l) (get j r)).1
          (merge_ids digests b l r ids).conflicts in
      joined (j == id) (contains ids id)
        (find_conflict j (merge_one digests j (get j b) (get j l) (get j r)).1)
        (find_conflict id (merge_one digests id (get id b) (get id l) (get id r)).1) _ _ _ split one
        rest
        (λ e.
          ap (λ k. find_conflict k (merge_one digests k (get k b) (get k l) (get k r)).1) (==→eq e))
