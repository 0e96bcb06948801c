-- ===== src/Prelude/Results.antt =====
-- Fallible code: `Result` for Rust's, with `do`. The error type is a parameter.
use mathlib.Core.Path.{◌≡◌, refl}
use mathlib.Core.Logic.{◌⊎◌, inl, inr}
use mathlib.Core.Bool.{Bool, true, false}
use mathlib.Core.Option.{Option, none, some}

pub data Result {κ} (Error Value : Type κ) : Type κ where
  err : Error → Result Error Value
  ok : Value → Result Error Value

-- Rust's `?`
abbrev pub ◌>>=◌ {κ} :
    {Error Value Next : Type κ}
    → Result Error Value
    → (Value → Result Error Next)
    → Result Error Next
err failure >>= next = err failure
ok value >>= next = next value

infixl 5 ◌>>=◌ ◌>>◌
abbrev pub ◌>>◌ {κ} :
    {Error Value Next : Type κ} → Result Error Value → Result Error Next → Result Error Next
first >> next = first >>= λ _. next

-- `if !test { return Err(e) }`
abbrev pub ensure : {E : Type 0} → Bool → E → Result E (Unit {0})
ensure true e = ok tt
ensure false e = err e

-- `.ok_or_else(|| e)`
abbrev pub ok_or {ℓ} : {E A : Type ℓ} → Option A → E → Result E A
ok_or (some a) e = ok a
ok_or none e = err e

-- The inversion of a chain that succeeds.
pub >>=-eq-ok {κ} :
    {Error Value Next : Type κ} (step : Result Error Value) (next : Value → Result Error Next)
    {out : Next}
    → (step >>= next) ≡ ok out
    → (value : Value) × (step ≡ ok value) × (next value ≡ ok out)
>>=-eq-ok (err failure) next given = cc
>>=-eq-ok (ok value) next given = (value, refl, given)

pub ensure-eq-ok : {E : Type 0} (t : Bool) (e : E) {u : Unit {0}} → ensure t e ≡ ok u → t ≡ true
ensure-eq-ok true e h = refl
ensure-eq-ok false e h = cc

pub ok_or-eq-ok {ℓ} : {E A : Type ℓ} (o : Option A) (e : E) {a : A} → ok_or o e ≡ ok a → o ≡ some a
ok_or-eq-ok (some x) e h = cc
ok_or-eq-ok none e h = cc

pub Result-cases {ℓ} :
    {E A : Type ℓ} (m : Result E A) → ((a : A) × (m ≡ ok a)) ⊎ ((x : E) × (m ≡ err x))
Result-cases (ok a) = inl (a, refl)
Result-cases (err x) = inr (x, refl)

pub ok-injective {ℓ} : {E A : Type ℓ} {a b : A} → ◌≡◌ {A = Result E A} (ok a) (ok b) → a ≡ b
ok-injective h = cc

abbrev pub is_some {ℓ} : {A : Type ℓ} → Option A → Bool
is_some none = false
is_some (some x) = true

pub err≢ok {ℓ} : {E A : Type ℓ} {e : E} {a : A} → ◌≡◌ {A = Result E A} (err e) (ok a) → ⊥
err≢ok h = cc

abbrev pub map_option {κ} : {From To : Type κ} → (From → To) → Option From → Option To
map_option f none = none
map_option f (some a) = some (f a)
