-- ===== src/Merge/Applied.antt =====
-- The loop over the conflicts in `resolve_thread_sets` of crates/sync-core/src/sync.rs.
use codex_session_sync.Prelude.{
  ==→eq, Bool, Bool-cases, List, Option, Option-cases, String, [], ap, arith, eq_iff, false, get,
  get-insert, if_false, if_true, if◌then◌else◌, inl, inr, insert, is_some, none, ok, ok-injective,
  refl, some, sym, true, ◌==◌, ◌||◌, ◌∙◌, ◌∷◌, ◌≡◌, nat_eq, string_eq, option_eq,
}
use mathlib.Core.Option.{some-injective}
use codex_session_sync.Merge.Bundle.{ThreadBundle}
use codex_session_sync.Merge.Maps.{find_thread-push, find_thread}
use codex_session_sync.Merge.Threads.{
  ThreadConflict, push_selected, ThreadResolutionChoice, Threads, ThreadConflictResolution,
  or_option, keep_local, keep_remote,
}
use codex_session_sync.Merge.Resolutions.{
  Resolutions, resolution_map_from, apply_resolutions, push_last, chosen,
}
use codex_session_sync.Merge.Rounds.{find_conflict, IsKeyed}

-- The resolution that is given for an id.
unfoldable pub find_resolution :
    String → List ThreadConflictResolution → Option ThreadConflictResolution
find_resolution id [] = none
find_resolution id (x ∷ xs) = if x.thread_id == id then some x else find_resolution id xs

-- The version that a choice stands for.
unfoldable pub version :
    Option ThreadBundle → Option ThreadBundle → ThreadResolutionChoice → Option ThreadBundle
version local remote keep_local = local
version local remote keep_remote = remote

pub or_none : {A : Type 0} (o : Option A) → o ≡ or_option o none
or_none none = refl
or_none (some a) = refl

pub resolution_map_from-get :
    (id : String) (m n : Resolutions) (xs : List ThreadConflictResolution)
    → resolution_map_from m xs ≡ ok n
    → get id n ≡ or_option (get id m) (find_resolution id xs)
unfolding resolution_map_from find_resolution
resolution_map_from-get id m n [] h = ap (get id) (ok-injective (sym h)) ∙ or_none (get id m)
resolution_map_from-get id m n (x ∷ xs) h =
    let there = get-insert x.thread_id id x m in
    let later = resolution_map_from-get id (insert x.thread_id x m) n xs in
    ground (arith, eq_iff x.thread_id id)

find_thread-push_last :
    (id : String) (o : Option ThreadBundle) (ts : List ThreadBundle)
    → find_thread id (push_last o ts)
      ≡ or_option (find_thread id ts) (find_thread id (push_selected o []))
unfolding find_thread push_last push_selected
find_thread-push_last id none ts = or_none (find_thread id ts)
find_thread-push_last id (some t) [] = refl
find_thread-push_last id (some t) (u ∷ us) = ground (arith, find_thread-push_last id (some t) us)

-- The version that the resolution of an id picks.
unfoldable pub picked : Threads → Threads → Resolutions → String → Option ThreadBundle
picked local remote selected id = elim (get id selected) [
  | none ↦ none
  | some x ↦ chosen local remote id x.choice
]

chosen-id :
    (local remote : Threads) (id : String) (choice : ThreadResolutionChoice) (t : ThreadBundle)
    → IsKeyed local
    → IsKeyed remote
    → chosen local remote id choice ≡ some t
    → t.thread_id ≡ id
unfolding chosen
chosen-id local remote id keep_local t kl kr h = kl.keyed id t h
chosen-id local remote id keep_remote t kl kr h = kr.keyed id t h

-- A round that goes through.
apply_resolutions-step :
    (local remote : Threads) (selected : Resolutions) (c : ThreadConflict)
    (cs : List ThreadConflict) (ts out : List ThreadBundle)
    → apply_resolutions local remote selected (c ∷ cs) ts ≡ ok out
    → (x : ThreadConflictResolution) × (get c.thread_id selected ≡ some x)
      × (x.conflict_id ≡ c.conflict_id)
      × (apply_resolutions local remote selected cs
            (push_last (chosen local remote c.thread_id x.choice) ts)
          ≡ ok out)
unfolding apply_resolutions
apply_resolutions-step local remote selected c cs ts out h =
    elim (Option-cases (get c.thread_id selected)) [
      | inl missing ↦ absurd (ground arith)
      | inr (x, found) ↦ elim (Bool-cases (x.conflict_id == c.conflict_id)) [
        | inl same ↦ (x, found, ==→eq same, ground arith)
        | inr other ↦ absurd (ground arith)
      ]
    ]

or_same : {A : Type 0} (o : Option A) → or_option o o ≡ o
or_same none = refl
or_same (some a) = refl

or_is_some :
    {A : Type 0} (b : Bool) (a : A) (o : Option A)
    → (b || is_some o) ≡ is_some (if b then some a else o)
or_is_some true a o = refl
or_is_some false a o = refl

pub picked-found :
    (local remote : Threads) (selected : Resolutions) (id : String) (x : ThreadConflictResolution)
    → get id selected ≡ some x
    → picked local remote selected id ≡ chosen local remote id x.choice
unfolding picked
picked-found local remote selected id x h = rw (picked, h) refl

absorbed :
    (b c : Bool) (out here there pushed picks version : Option ThreadBundle)
    → out ≡ or_option there (if c then picks else none)
    → there ≡ or_option here pushed
    → pushed ≡ (if b then version else none)
    → (b ≡ true → version ≡ picks)
    → out ≡ or_option here (if b || c then picks else none)
absorbed true c out (some a) there pushed picks version p q r h =
    p ∙ ap (λ o. or_option o (if c then picks else none)) q
absorbed true true out none there pushed picks version p q r h =
    p ∙ ap (λ o. or_option o picks) (q ∙ r ∙ h refl) ∙ or_same picks
absorbed true false out none there pushed picks version p q r h =
    p ∙ sym (or_none there) ∙ q ∙ r ∙ h refl
absorbed false c out here there pushed picks version p q r h =
    p
    ∙ ap (λ o. or_option o (if c then picks else none))
        (q ∙ ap (or_option here) r ∙ sym (or_none here))

-- What the loop over the conflicts leaves: what was there, and the picked version of each conflict.
pub apply_resolutions-find :
    (local remote : Threads) (selected : Resolutions) (cs : List ThreadConflict)
    (ts out : List ThreadBundle) (id : String)
    → IsKeyed local
    → IsKeyed remote
    → apply_resolutions local remote selected cs ts ≡ ok out
    → find_thread id out
      ≡ or_option
          (find_thread id ts)
          (if is_some (find_conflict id cs) then picked local remote selected id else none)
unfolding apply_resolutions find_conflict
apply_resolutions-find local remote selected [] ts out id kl kr h =
    ap (find_thread id) (ok-injective (sym h)) ∙ or_none (find_thread id ts)
apply_resolutions-find local remote selected (c ∷ cs) ts out id kl kr h =
    let (x, found, _, rest) = apply_resolutions-step local remote selected c cs ts out h in
    let version = chosen local remote c.thread_id x.choice in
    let later =
      apply_resolutions-find local remote selected cs (push_last version ts) out id kl kr rest in
    let pushed =
      find_thread-push c.thread_id id version
        (λ t. chosen-id local remote c.thread_id x.choice t kl kr) in
    let same : (c.thread_id == id) ≡ true → version ≡ picked local remote selected id = λ e.
      ap (λ k. chosen local remote k x.choice) (==→eq e)
      ∙ sym (
          picked-found local remote selected id x
            (ap (λ k. get k selected) (sym (==→eq e)) ∙ found)) in
    absorbed (c.thread_id == id) (is_some (find_conflict id cs)) _ _ _ _ _ version later
      (find_thread-push_last id version ts) pushed same
    ∙ ap (λ b. or_option (find_thread id ts) (if b then picked local remote selected id else none))
        (or_is_some (c.thread_id == id) c (find_conflict id cs))

-- The loop goes through only where each conflict has a resolution of its own fingerprint.
pub apply_resolutions-matches :
    (local remote : Threads) (selected : Resolutions) (cs : List ThreadConflict)
    (ts out : List ThreadBundle) (id : String) (c : ThreadConflict)
    → apply_resolutions local remote selected cs ts ≡ ok out
    → find_conflict id cs ≡ some c
    → (x : ThreadConflictResolution) × (get id selected ≡ some x) × (x.conflict_id ≡ c.conflict_id)
unfolding apply_resolutions find_conflict
apply_resolutions-matches local remote selected [] ts out id c h found = cc
apply_resolutions-matches local remote selected (d ∷ cs) ts out id c h found =
    let (x, given, same, rest) = apply_resolutions-step local remote selected d cs ts out h in
    elim (Bool-cases (d.thread_id == id)) [
      | inl here ↦
          let is : d ≡ c = some-injective _ _ (sym (if_true _ _ here) ∙ found) in
          (
            x,
            ap (λ k. get k selected) (sym (==→eq here)) ∙ given,
            same ∙ ap (λ (k : ThreadConflict). k.conflict_id) is,
          )
      | inr other ↦
          apply_resolutions-matches local remote selected cs
            (push_last (chosen local remote d.thread_id x.choice) ts) out id c rest
            (sym (if_false _ _ other) ∙ found)
    ]
