-- ===== src/Merge/Maps.antt =====
-- The maps, sets and sorts of the merge in crates/sync-core/src/sync.rs, by what is found in them.
use codex_session_sync.Prelude.{
  List, Option, String, [], ap, arith, compare_eq_iff, contains, eq_iff, get, get-insert,
  if◌then◌else◌, insert, is_some, none, ok, ok-injective, refl, some, sym, ◌==◌, ◌||◌, ◌∙◌, ◌∷◌,
  ◌≡◌, nat_eq, string_eq, option_eq,
}
use codex_session_sync.Merge.Bundle.{ThreadBundle}
use codex_session_sync.Merge.Threads.{
  or_option, thread_map, thread_map_from, insert_keys, place_thread, insert_id, push_selected,
  Threads, sort_threads,
}

-- The thread of an id among threads.
unfoldable pub find_thread : String → List ThreadBundle → Option ThreadBundle
find_thread id [] = none
find_thread id (t ∷ ts) = if t.thread_id == id then some t else find_thread id ts

pub find_thread-id :
    (id : String) (ts : List ThreadBundle) (t : ThreadBundle)
    → find_thread id ts ≡ some t
    → t.thread_id ≡ id
unfolding find_thread
find_thread-id id [] t h = cc
find_thread-id id (u ∷ us) t h = ground (arith, eq_iff u.thread_id id, find_thread-id id us t)

find_thread-place_thread :
    (id : String) (t : ThreadBundle) (ts : List ThreadBundle)
    → find_thread id (place_thread t ts) ≡ find_thread id (t ∷ ts)
unfolding find_thread place_thread
find_thread-place_thread id t [] = refl
find_thread-place_thread id t (u ∷ us) = ground (
  arith,
  eq_iff u.thread_id id,
  eq_iff t.thread_id id,
  compare_eq_iff u.thread_id t.thread_id,
  compare_eq_iff id id,
  find_thread-place_thread id t us,
)

pub find_thread-sort_threads :
    (id : String) (ts : List ThreadBundle) → find_thread id (sort_threads ts) ≡ find_thread id ts
unfolding sort_threads find_thread
find_thread-sort_threads id [] = refl
find_thread-sort_threads id (t ∷ ts) =
    find_thread-place_thread id t (sort_threads ts)
    ∙ ap (λ o. if t.thread_id == id then some t else o) (find_thread-sort_threads id ts)

pub find_thread-push_selected :
    (id : String) (o : Option ThreadBundle) (ts : List ThreadBundle)
    → find_thread id (push_selected o ts)
      ≡ or_option (find_thread id (push_selected o [])) (find_thread id ts)
unfolding find_thread push_selected
find_thread-push_selected id none ts = refl
find_thread-push_selected id (some t) ts = ground arith

or_option-none : (o : Option ThreadBundle) → o ≡ or_option o none
or_option-none none = refl
or_option-none (some t) = refl

thread_map_from-get :
    (id : String) (m n : Threads) (ts : List ThreadBundle)
    → thread_map_from m ts ≡ ok n
    → get id n ≡ or_option (get id m) (find_thread id ts)
unfolding thread_map_from find_thread
thread_map_from-get id m n [] h = ap (get id) (ok-injective (sym h)) ∙ or_option-none (get id m)
thread_map_from-get id m n (t ∷ ts) h =
    let there = get-insert t.thread_id id t m in
    let later = thread_map_from-get id (insert t.thread_id t m) n ts in
    ground (arith, eq_iff t.thread_id id)

-- A map of threads finds what the list does.
pub thread_map-get :
    (id : String) (n : Threads) (ts : List ThreadBundle)
    → thread_map ts ≡ ok n
    → get id n ≡ find_thread id ts
unfolding thread_map get
thread_map-get id n ts h = thread_map_from-get id [] n ts h

contains-insert_id :
    (id k : String) (ids : List String)
    → contains (insert_id k ids) id ≡ (k == id || contains ids id)
unfolding contains insert_id
contains-insert_id id k [] = refl
contains-insert_id id k (j ∷ js) =
    ground (arith, eq_iff k id, eq_iff j id, compare_eq_iff k j, contains-insert_id id k js)

contains-insert_keys :
    (id : String) (m : Threads) (ids : List String)
    → contains (insert_keys m ids) id ≡ (is_some (get id m) || contains ids id)
unfolding contains insert_keys get
contains-insert_keys id [] ids = refl
contains-insert_keys id ((k, t) ∷ m) ids =
    ground
      (arith, eq_iff k id, contains-insert_id id k ids, contains-insert_keys id m (insert_id k ids))

-- The ids that the merge goes through are those of the three maps.
pub merge_ids_contain :
    (id : String) (b l r : Threads)
    → contains (insert_keys r (insert_keys l (insert_keys b []))) id
      ≡ (is_some (get id r) || (is_some (get id l) || is_some (get id b)))
unfolding contains
merge_ids_contain id b l r = ground (
  arith,
  contains-insert_keys id r (insert_keys l (insert_keys b [])),
  contains-insert_keys id l (insert_keys b []),
  contains-insert_keys id b [],
)

-- A thread that is pushed is found under its own id only.
pub find_thread-push :
    (j id : String) (o : Option ThreadBundle)
    → ((t : ThreadBundle) → o ≡ some t → t.thread_id ≡ j)
    → find_thread id (push_selected o []) ≡ (if j == id then o else none)
unfolding find_thread push_selected
find_thread-push j id none h = ground arith
find_thread-push j id (some t) h = ground (arith, h t refl)
