-- ===== src/Metadata/Closure.antt =====
-- The rounds of `reachable_objects` end, and what they collect is exactly what can be reached.
use codex_session_sync.Prelude.{
  ==_refl, ==→eq, Bool, Bool-cases, List, Option-cases, [], and_intro, and_left, and_not-false,
  and_right, any, arith, contains, eq→==, if-of_false, if-of_true, if◌then◌else◌, inl, inr, length,
  none, not, or_cases, or_left, or_right, some, subst, suc, sym, true, zero, ℕ, ◌&&◌, ◌<◌, ◌==◌,
  ◌↔◌, ◌∷◌, ◌≡◌, ◌≤◌, nat_eq, string_eq, option_eq,
}
use mathlib.Core.Option.{some-injective}
use codex_session_sync.Metadata.Tables.{Key, Edge}
use codex_session_sync.Metadata.Reachability.{key_eq, next_target, close, reach_from}

-- Some row of `object_edges` joins the two objects.
unfoldable pub has_edge : List Edge → Key → Key → Bool
has_edge edges a b = any (λ e. e.owner == a && e.target == b) edges

-- What can be reached from the roots along the edges.
pub data Reaches (edges : List Edge) (roots : List Key) : Key → Type 0 where
  from_root : {k : Key} → contains roots k ≡ true → Reaches edges roots k
  along : {a b : Key} → Reaches edges roots a → has_edge edges a b ≡ true → Reaches edges roots b

next_target-has_edge :
    (seen : List Key) (edges : List Edge) (k : Key)
    → next_target seen edges ≡ some k
    → (a : Key) × (contains seen a ≡ true) × (has_edge edges a k ≡ true)
unfolding next_target has_edge any
next_target-has_edge seen [] k h = cc
next_target-has_edge seen (e ∷ edges) k h =
    let taken = contains seen e.owner && not (contains seen e.target) in
    elim (Bool-cases taken) [
      | inl y ↦
          let hit = some-injective _ _ (if-of_true taken _ _ _ h y) in
          (
            e.owner,
            and_left (contains seen e.owner) _ y,
            or_left _ _ (and_intro _ _ (==_refl e.owner) (eq→== hit)),
          )
      | inr n ↦
          let (a, p, q) = next_target-has_edge seen edges k (if-of_false taken _ _ _ h n) in
          (a, p, or_right (e.owner == a && e.target == k) _ q)
    ]

-- The edges whose target is still to be collected.
missing : List Key → List Edge → ℕ
missing seen [] = 0
missing seen (e ∷ edges) =
    let rest = missing seen edges in if contains seen e.target then rest else suc rest

missing-le :
    (k : Key) (seen : List Key) (edges : List Edge) → missing (k ∷ seen) edges ≤ missing seen edges
unfolding missing contains
missing-le k seen [] = omega arith
missing-le k seen (e ∷ edges) = ground (arith, missing-le k seen edges)

missing-next_target :
    (seen : List Key) (edges : List Edge) (k : Key)
    → next_target seen edges ≡ some k
    → missing (k ∷ seen) edges < missing seen edges
unfolding missing next_target contains
missing-next_target seen [] k h = cc
missing-next_target seen (e ∷ edges) k h =
    ground (arith, missing-le k seen edges, missing-next_target seen edges k, ==_refl k)

missing-le-length : (seen : List Key) (edges : List Edge) → missing seen edges ≤ length edges
unfolding missing
missing-le-length seen [] = omega arith
missing-le-length seen (e ∷ edges) = ground (arith, missing-le-length seen edges)

close_ends :
    (edges : List Edge) (fuel : ℕ) (seen : List Key)
    → missing seen edges ≤ fuel
    → next_target (close edges fuel seen) edges ≡ none
unfolding close
close_ends edges zero seen h = elim (Option-cases (next_target seen edges)) [
  | inl e ↦ e
  | inr (k, e) ↦ absurd (omega (arith, missing-next_target seen edges k e))
]
close_ends edges (suc fuel) seen h = elim (Option-cases (next_target seen edges)) [
  | inl e ↦ rw (e, close) e
  | inr (k, e) ↦
      rw (e, close)
        (close_ends edges fuel (k ∷ seen) (omega (arith, missing-next_target seen edges k e)))
]

contains-close :
    (edges : List Edge) (fuel : ℕ) (seen : List Key) (k : Key)
    → contains seen k ≡ true
    → contains (close edges fuel seen) k ≡ true
unfolding close
contains-close edges zero seen k h = h
contains-close edges (suc fuel) seen k h = elim (Option-cases (next_target seen edges)) [
  | inl e ↦ rw (e, close) h
  | inr (j, e) ↦
      rw (e, close)
        (contains-close edges fuel (j ∷ seen) k (unfold contains in or_right (j == k) _ h))
]

-- A set to which no round adds anything is closed under the edges.
closed :
    (seen : List Key) (edges : List Edge) (a b : Key)
    → next_target seen edges ≡ none
    → contains seen a ≡ true
    → has_edge edges a b ≡ true
    → contains seen b ≡ true
unfolding next_target has_edge any
closed seen [] a b h p q = cc
closed seen (e ∷ edges) a b h p q =
    let taken = contains seen e.owner && not (contains seen e.target) in
    elim (Bool-cases taken) [
      | inl y ↦ cc (if-of_true taken _ _ _ h y)
      | inr n ↦ elim (or_cases (e.owner == a && e.target == b) _ q) [
        | inl here ↦
            subst (λ k. contains seen k ≡ true) (==→eq (and_right _ _ here))
              (and_not-false _ _ n
                (subst (λ k. contains seen k ≡ true) (sym (==→eq (and_left _ _ here))) p))
        | inr (_, later) ↦ closed seen edges a b (if-of_false taken _ _ _ h n) p later
      ]
    ]

Reaches-close :
    (edges : List Edge) (roots : List Key) (fuel : ℕ) (seen : List Key)
    → ((k : Key) → contains seen k ≡ true → Reaches edges roots k)
    → (k : Key) → contains (close edges fuel seen) k ≡ true
    → Reaches edges roots k
unfolding close
Reaches-close edges roots zero seen inv k h = inv k h
Reaches-close edges roots (suc fuel) seen inv k h = elim (Option-cases (next_target seen edges)) [
  | inl e ↦ inv k (rw (e, close) at h)
  | inr (j, e) ↦
      let (a, p, q) = next_target-has_edge seen edges j e in
      Reaches-close edges roots fuel (j ∷ seen)
        (λ i m. elim (or_cases (j == i) (contains seen i) (unfold contains in m)) [
          | inl here ↦ subst (Reaches edges roots) (==→eq here) (along (inv a p) q)
          | inr (_, old) ↦ inv i old
        ])
        k (rw (e, close) at h)
]

-- The set that the rounds collect holds exactly what can be reached from the roots along the edges.
pub reach_from-Reaches :
    (edges : List Edge) (roots : List Key) (k : Key)
    → (contains (reach_from edges roots) k ≡ true) ↔ Reaches edges roots k
unfolding reach_from
reach_from-Reaches edges roots k =
    (Reaches-close edges roots (length edges) roots (λ i h. from_root h) k, complete)
  where
    complete :
        {k : Key} → Reaches edges roots k → contains (close edges (length edges) roots) k ≡ true
    complete (from_root h) = contains-close edges (length edges) roots _ h
    complete (along {a = a} {b = b} r e) =
        closed _ edges a b (close_ends edges (length edges) roots (missing-le-length roots edges))
          (complete r) e
