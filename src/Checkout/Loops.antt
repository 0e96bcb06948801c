-- ===== src/Checkout/Loops.antt =====
-- The rule for the loops of crates/sync-core/src/checkout.rs that collect failures: where a round reports
-- none its element is done, and rounds after it leave it so.
use codex_session_sync.Prelude.{
  All, Bool, Bool-cases, List, [], inl, inr, refl, subst, sym, true, ◌++◌, ◌∷◌, ◌≡◌, nat_eq,
  string_eq, option_eq, list_eq,
}
use codex_session_sync.Checkout.Rules.{consequence, bind_rule, give_rule, Triple}
use codex_session_sync.Checkout.Calls.{absurd_rule}
use codex_session_sync.Checkout.Journal.{Failure}
use codex_session_sync.Checkout.World.{give, Action, collect, World, Files, ◌>>=◌}
use mathlib.Core.List.{reverse, reverse-cons}

pub All-append :
    {A : Type 0} (P : A → Type 0) (xs ys : List A) → All P xs → All P ys → All P (xs ++ ys)
All-append P [] ys h k = k
All-append P (x ∷ xs) ys (h, hs) k = (h, All-append P xs ys hs k)

pub All-reverse : {A : Type 0} (P : A → Type 0) (xs : List A) → All P xs → All P (reverse xs)
All-reverse P [] h = tt
All-reverse P (x ∷ xs) (h, hs) =
    subst (All P) (sym (reverse-cons x xs))
      (All-append P (reverse xs) (x ∷ []) (All-reverse P xs hs) (h, tt))

pub All-of_append :
    {A : Type 0} (P : A → Type 0) (xs ys : List A) → All P (xs ++ ys) → All P xs × All P ys
All-of_append P [] ys h = (tt, h)
All-of_append P (x ∷ xs) ys (h, hs) = let (a, b) = All-of_append P xs ys hs in ((h, a), b)

pub All-of_reverse : {A : Type 0} (P : A → Type 0) (xs : List A) → All P (reverse xs) → All P xs
All-of_reverse P [] h = tt
All-of_reverse P (x ∷ xs) h =
    let (a, b) = All-of_append P (reverse xs) (x ∷ []) (subst (All P) (reverse-cons x xs) h) in
    (b.0, All-of_reverse P xs a)

pub append-nil_parts : {A : Type 0} (xs ys : List A) → xs ++ ys ≡ [] → (xs ≡ []) × (ys ≡ [])
append-nil_parts [] ys e = (refl, e)
append-nil_parts (x ∷ xs) ys e = cc

module _ {A : Type 0} (I : Files → Type 0) (Done : Files → A → Type 0) where
  pub record Round (quiet : Bool) (xs : List A) (y : A) (failures : List Failure) (f : Files)
      : Type 0 where
    pub kept : I f
    pub before_it : All (Done f) xs
    pub ended : failures ≡ [] → Done f y
    pub silent : quiet ≡ true → failures ≡ []

  pub record Looped (quiet : Bool) (xs ys : List A) (failures : List Failure) (f : Files)
      : Type 0 where
    pub kept : I f
    pub before_it : All (Done f) xs
    pub ended : failures ≡ [] → All (Done f) ys
    pub silent : quiet ≡ true → failures ≡ []

  abbrev pub Still : List A → Files → Type 0
  Still xs f = I f × All (Done f) xs

  module _ {quiet : Bool} {r : World} where
    -- After the round of `y`: it is done, or has reported a failure.
    rest_rule :
        (xs : List A) (y : A) (ys : List A) (rest : Action (List Failure)) (here : List Failure)
        → Triple quiet r (Still xs) rest (Looped quiet xs ys) (Still xs)
        → Triple quiet r (Still (y ∷ xs)) rest (Looped quiet (y ∷ xs) ys) (Still (y ∷ xs))
        → Triple quiet r
            (Round quiet xs y here)
            (rest >>= λ more. give (here ++ more))
            (Looped quiet xs (y ∷ ys))
            (Still xs)
    rest_rule xs y ys rest [] plain again =
        consequence (λ f h. (h.kept, (h.ended refl, h.before_it))) (λ a f h. h)
          (λ f h. (h.0, h.1.1))
          (bind_rule again (λ more. give_rule more (λ f h. record {
            kept = h.kept;
            before_it = h.before_it.1;
            ended = λ e. (h.before_it.0, h.ended e);
            silent = h.silent;
          })))
    rest_rule xs y ys rest (x ∷ here) plain again = elim (Bool-cases quiet) [
      | inl q ↦ absurd_rule (λ f h. cc (h.silent q))
      | inr n ↦
          consequence (λ f h. (h.kept, h.before_it)) (λ a f h. h) (λ f h. h)
            (bind_rule plain (λ more. give_rule (x ∷ here ++ more) (λ f h. record {
              kept = h.kept;
              before_it = h.before_it;
              ended = λ e. cc;
              silent = λ q. cc (q, n);
            })))
    ]

    pub collect_rule :
        (Ok : A → Type 0) (body : A → Action (List Failure))
        → ((xs : List A)
            → All Ok xs
            → (y : A) → Ok y
            → Triple quiet r (Still xs) (body y) (Round quiet xs y) (Still xs))
        → (xs : List A) → All Ok xs
        → (ys : List A) → All Ok ys
        → Triple quiet r (Still xs) (collect body ys) (Looped quiet xs ys) (Still xs)
    unfolding collect
    collect_rule Ok body round xs mx [] my =
        give_rule []
          (λ f h. record { kept = h.0; before_it = h.1; ended = λ e. tt; silent = λ q. refl })
    collect_rule Ok body round xs mx (y ∷ ys) (m, my) = bind_rule (round xs mx y m) (λ here.
        rest_rule xs y ys (collect body ys) here (collect_rule Ok body round xs mx ys my)
          (collect_rule Ok body round (y ∷ xs) (m, mx) ys my))
