-- ===== src/Checkout/Calls.antt =====
-- Rules for the calls to the system that crates/sync-core/src/checkout.rs makes: a change of the files, and
-- an error that is kept as a value.
use codex_session_sync.Prelude.{
  Bool, List, Option, Option-cases, Result, String, [], ap, arith, err, false, if◌then◌else◌, inl,
  inr, is_some, none, ok, refl, some, subst, sym, true, true≢false, ◌∙◌, ◌∷◌, ◌≡◌, nat_eq,
  string_eq, option_eq, list_eq,
}
use codex_session_sync.Checkout.Rules.{weaken, end_rule, consequence, Left, At, Triple, Ends}
use codex_session_sync.Checkout.Journal.{CheckoutError, io_error, FilePath}
use mathlib.Core.Option.{some-injective}
use codex_session_sync.Checkout.World.{
  set_file, renamed, lift, attempt, pause, works, fails, stops, stopped, call, Fate, failed, done,
  touched, touch, Action, call_with, Run, give, Files, World, ◌>>=◌,
}

module _ {quiet : Bool} {r : World} {F G : Files → Type 0} {change : Files → Option Files} where
  -- The world in which the call is made has fewer fates, and else is the same.
  made :
      (w : World)
      → At quiet r F w
      → ((f : Files) → F f → quiet ≡ true → is_some (change f) ≡ true)
      → ((f g : Files) → F f → change f ≡ some g → G g)
      → Ends
          (λ (a : Unit {0}). At quiet r G)
          (Left quiet r F)
          (elim (touched change w) [ none ↦ failed io_error w | some v ↦ done tt v ])
  unfolding touched
  made w h ok_there make = elim (Option-cases (change w.files)) [
    | inl nothing ↦ rw nothing (record {
      saved = h.saved;
      unsaved = h.unsaved;
      held = h.held;
      tracking = h.tracking;
      files = h.files;
      broken = λ e. true≢false (sym (ok_there w.files h.files e) ∙ ap is_some nothing);
    })
    | inr (g, found) ↦ rw found (record {
      saved = h.saved;
      unsaved = h.unsaved;
      held = h.held;
      tracking = h.tracking;
      files = make w.files g h.files found;
      calm = h.calm;
    })
  ]

  touch_at :
      (w : World) (fates : List Fate)
      → w.fates ≡ fates
      → At quiet r F w
      → ((f : Files) → F f → quiet ≡ true → is_some (change f) ≡ true)
      → ((f g : Files) → F f → change f ≡ some g → G g)
      → Ends (λ (a : Unit {0}). At quiet r G) (Left quiet r F) (call_with fates (touched change) w)
  unfolding call_with
  touch_at w [] e h ok_there make = made w h ok_there make
  touch_at w (works ∷ fs) e h ok_there make =
      made (record w { fates = fs })
        (record {
          saved = h.saved;
          unsaved = h.unsaved;
          held = h.held;
          tracking = h.tracking;
          files = h.files;
          calm = λ c. cc (e, h.calm c);
        })
        ok_there make
  touch_at w (fails ∷ fs) e h ok_there make = record {
    saved = h.saved;
    unsaved = h.unsaved;
    held = h.held;
    tracking = h.tracking;
    files = h.files;
    broken = λ c. cc (e, h.calm c);
  }
  touch_at w (stops ∷ fs) e h ok_there make = record {
    saved = h.saved;
    unsaved = h.unsaved;
    held = h.held;
    tracking = h.tracking;
    files = h.files;
    broken = λ c. cc (e, h.calm c);
  }

  pub touch_rule :
      ((f : Files) → F f → quiet ≡ true → is_some (change f) ≡ true)
      → ((f g : Files) → F f → change f ≡ some g → G g)
      → Triple quiet r F (touch change) (λ a. G) F
  unfolding touch call
  touch_rule ok_there make = record { ends = λ w h. touch_at w w.fates refl h ok_there make }

abbrev pub Tried :
    Bool
    → {A : Type 0} → (A → Files → Type 0)
    → (Files → Type 0)
    → Result CheckoutError A
    → Files
    → Type 0
Tried quiet G H (ok a) f = G a f
Tried quiet G H (err e) f = H f × (quiet ≡ true → ⊥)

attempt_end :
    (quiet : Bool) (r : World) {A : Type 0} (G : A → Files → Type 0) (H : Files → Type 0)
    (run : Run A)
    → Ends (λ a. At quiet r (G a)) (Left quiet r H) run
    → Ends
        (λ x. At quiet r (Tried quiet G H x))
        (Left quiet r H)
        (elim run [
          | done a v ↦ done (ok a) v
          | failed e v ↦ done (err e) v
          | stopped v ↦ stopped v
        ])
attempt_end quiet r G H (done a v) h = record {
  saved = h.saved;
  unsaved = h.unsaved;
  held = h.held;
  tracking = h.tracking;
  files = h.files;
  calm = h.calm;
}
attempt_end quiet r G H (failed e v) h = record {
  saved = h.saved;
  unsaved = h.unsaved;
  held = h.held;
  tracking = h.tracking;
  files = (h.files, h.broken);
  calm = λ c. absurd (h.broken c);
}
attempt_end quiet r G H (stopped v) h = h

module _ {quiet : Bool} {r : World} where
  pub pause_rule : {F : Files → Type 0} → Triple quiet r F pause (λ a. F) F
  unfolding pause
  pause_rule {F} = touch_rule (λ f h e. refl) (λ f g h e. subst F (some-injective _ _ e) h)

  pub attempt_rule :
      {A : Type 0} {F H : Files → Type 0} {G : A → Files → Type 0} {m : Action A}
      → Triple quiet r F m G H
      → Triple quiet r F (attempt m) (Tried quiet G H) H
  unfolding attempt
  attempt_rule {H} {G} {m} t = record { ends = λ w h. attempt_end quiet r G H (m w) (t.ends w h) }

module _ {quiet : Bool} {r : World} where
  pub absurd_rule :
      {A : Type 0} {F H : Files → Type 0} {G : A → Files → Type 0} {m : Action A}
      → ((f : Files) → F f → ⊥)
      → Triple quiet r F m G H
  absurd_rule never = record { ends = λ w h. absurd (never w.files h.files) }

  -- The same call, where a broken run is described less exactly.
  pub touch_to :
      {F G H : Files → Type 0} {change : Files → Option Files}
      → ((f : Files) → F f → H f)
      → ((f : Files) → F f → quiet ≡ true → is_some (change f) ≡ true)
      → ((f g : Files) → F f → change f ≡ some g → G g)
      → Triple quiet r F (touch change) (λ a. G) H
  touch_to less ok_there make = consequence (λ f h. h) (λ a f h. h) less (touch_rule ok_there make)

  pub lift_rule :
      {A B : Type 0} {F H : Files → Type 0} {K : B → Files → Type 0} {m : Result CheckoutError A}
      {a : A} (k : A → Action B)
      → m ≡ ok a
      → Triple quiet r F (k a) K H
      → Triple quiet r F (lift m >>= k) K H
  unfolding lift give ◌>>=◌
  lift_rule k e t = rw e (record { ends = λ w h. t.ends w h })

-- What a rename leaves.
pub renamed_lem :
    (source destination : FilePath) (f g : Files)
    → renamed source destination f ≡ some g
    → (c : String) × (f source ≡ some c)
      × (g ≡ set_file destination (some c) (set_file source none f))
unfolding renamed
renamed_lem source destination f g h = elim (Option-cases (f source)) [
  | inl nothing ↦ ground arith
  | inr (c, found) ↦ (c, found, ground arith)
]

pub renamed_there :
    (source destination : FilePath) (f : Files)
    → is_some (f source) ≡ true
    → is_some (renamed source destination f) ≡ true
unfolding renamed
renamed_there source destination f h = ground arith

module _ {quiet : Bool} {r : World} where
  pub branch_rule :
      {A : Type 0} {F H : Files → Type 0} {G : A → Files → Type 0} {m k : Action A} (test : Bool)
      → (test ≡ true → Triple quiet r F m G H)
      → (test ≡ false → Triple quiet r F k G H)
      → Triple quiet r F (if test then m else k) G H
  branch_rule true x y = x refl
  branch_rule false x y = y refl

-- Where a call went through or failed alike.
pub tried_either :
    (quiet : Bool) (F : Files → Type 0) {A : Type 0} (x : Result CheckoutError A) (f : Files)
    → Tried quiet (λ a. F) F x f
    → F f
tried_either quiet F (ok a) f h = h
tried_either quiet F (err e) f h = h.0

module _ {quiet : Bool} {r : World} where
  -- A fact that is not about the files stays.
  pub frame_rule :
      {A : Type 0} {F H : Files → Type 0} {G : A → Files → Type 0} {m : Action A} {C : Type 0}
      → Triple quiet r F m G H
      → Triple quiet r (λ f. F f × C) m (λ a f. G a f × C) H
  frame_rule {m} t = record {
    ends = λ w h.
        end_rule quiet r (m w) (λ a f g. (g, h.files.1)) (λ f x. x)
          (t.ends w (weaken (λ f x. x.0) h));
  }
