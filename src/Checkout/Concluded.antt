-- ===== src/Checkout/Concluded.antt =====
-- `rollback_checkout` of crates/sync-core/src/checkout.rs as a whole: it ends with a journal that says
-- `rolled_back` and the files of before, or is broken off with a journal from which it can be resumed.
use codex_session_sync.Prelude.{
  Bool, List, Option, String, [], inl, inr, ok, refl, some, subst, sym, true, ◌∙◌, ◌∷◌, ◌≡◌, nat_eq,
  string_eq, option_eq, list_eq,
}
use codex_session_sync.Checkout.Journaling.{
  goes_of, write_checkout_journal_rule, loosen, sequence, hold_goes, held_goes, Goes,
}
use codex_session_sync.Checkout.Rewound.{site_of}
use codex_session_sync.Checkout.Rules.{weaken, Left, Triple, At}
use codex_session_sync.Checkout.Calls.{pause_rule}
use codex_session_sync.Checkout.Rollback.{undo, rollback_checkout, conclude, outcome_of}
use codex_session_sync.Checkout.Sound.{IsRecoverable, Sound}
use codex_session_sync.Checkout.Layout.{Agrees, Role}
use codex_session_sync.Checkout.Machine.{Machine}
use mathlib.Core.Option.{some-injective}
use codex_session_sync.Checkout.World.{refuse, give, World, Files}
use codex_session_sync.Checkout.Journal.{
  local_write_started, not_rolled_back, Failure, Message, CheckoutStatus, CheckoutError, FilePath,
  CheckoutJournal, validate_checkout_journal,
}

abbrev pub concluded :
    Machine → CheckoutJournal → Option CheckoutError → List Failure → CheckoutJournal
concluded m j cause failures = record j {
  status = outcome_of failures;
  updated_at = m.now;
  failure = some (record { cause = cause; failures = failures });
}

pub valid_again :
    (m : Machine) (j : CheckoutJournal) (status : CheckoutStatus) (at : String)
    (failure : Option Message)
    → validate_checkout_journal m.is_whitespace j ≡ ok tt
    → validate_checkout_journal m.is_whitespace
        (record j { status = status; updated_at = at; failure = failure })
      ≡ ok tt
unfolding validate_checkout_journal
valid_again m j status at failure h = h

module _ (m : Machine) (role : FilePath → Role) (before : Files) (j : CheckoutJournal)
    (cause : Option CheckoutError) where
  -- The operation has been undone, and the journal says so.
  pub record Undid (quiet : Bool) (w : World) : Type 0 where
    pub agrees : Agrees (site_of role before j) w.files
    pub held : w.held ≡ concluded m j cause []
    pub saved : w.saved ≡ some (concluded m j cause [])
    pub calm : quiet ≡ true → w.fates ≡ []

  -- The journal on the disk is sound, and the process may die.
  pub record Stuck (quiet : Bool) (w : World) : Type 0 where
    pub recoverable : IsRecoverable m role before w
    pub broken : quiet ≡ true → ⊥

  -- What the loops must have left: the journal to come is sound.
  pub record Concludes (quiet : Bool) (failures : List Failure) (f : Files) : Type 0 where
    pub sound : Sound m role before (concluded m j cause failures) f
    pub silent : quiet ≡ true → failures ≡ []

  -- The old journal is sound, whatever of the files the loops have left.
  module _ (r : World) where
    abbrev pub Covered : Files → Type 0
    Covered f = (k : CheckoutJournal) → r.saved ≡ some k → Sound m role before k f

  module _ {quiet : Bool} (r : World) where
    concluded_with :
        (failures : List Failure) (v : World)
        → Concludes quiet failures v.files
        → v.held ≡ concluded m j cause failures
        → v.saved ≡ some (concluded m j cause failures)
        → (quiet ≡ true → v.fates ≡ [])
        → Goes
            (elim failures [ [] ↦ give tt | f ∷ fs ↦ refuse not_rolled_back ])
            v
            (λ (u : Unit {0}). Undid quiet)
            (Stuck quiet)
    unfolding give refuse
    concluded_with [] v c held saved calm = record {
      ends = record { agrees = c.sound.unchanged refl; held = held; saved = saved; calm = calm };
    }
    concluded_with (x ∷ failures) v c held saved calm = record {
      ends = record {
        recoverable = λ k e.
            subst (λ k'. Sound m role before k' v.files) (some-injective _ _ (sym saved ∙ e))
              c.sound;
        broken = λ q. cc (c.silent q);
      };
    }

    conclude_goes :
        (failures : List Failure) (v : World)
        → At quiet r (λ f. Covered r f × Concludes quiet failures f) v
        → v.held ≡ j
        → Goes (conclude m cause failures) v (λ u. Undid quiet) (Stuck quiet)
    unfolding conclude
    conclude_goes failures v h held = held_goes _ held (
        hold_goes (
          sequence
            (loosen (λ u x k. k)
              (λ x k. record {
                recoverable = λ i e. elim k.saved [
                  | inl old ↦
                      subst (Sound m role before i) (sym k.files)
                        (h.files.0 i (sym h.saved ∙ (sym old ∙ e)))
                  | inr gone ↦ cc (gone, e)
                ];
                broken = k.broken;
              })
              (write_checkout_journal_rule quiet (record v { held = concluded m j cause failures })
                (concluded m j cause failures) m (h.files.1.sound.valid) h.calm))
            (λ u x k.
              concluded_with failures x (subst (Concludes quiet failures) (sym k.files) h.files.1)
                k.held k.saved k.calm)))

    -- A rollback whose loops keep the old journal sound and prepare the new one.
    pub rollback_goes :
        {F : Files → Type 0}
        → r.held ≡ j
        → At quiet r F r
        → ((f : Files) → F f → Covered r f)
        → Triple quiet r F
            (undo (local_write_started j.status) j)
            (λ failures f. F f × Concludes quiet failures f)
            F
        → Goes (rollback_checkout m cause) r (λ u. Undid quiet) (Stuck quiet)
    unfolding rollback_checkout
    rollback_goes {F} held start covered loops = held_goes _ held (
        sequence (loosen (λ u v h. h) (λ v h. stuck v h) (goes_of pause_rule r start)) (λ u v h.
          sequence (loosen (λ a x k. k) (λ x k. stuck x k) (goes_of loops v h)) (λ failures x k.
            conclude_goes failures x (weaken (λ f e. (covered f e.0, e.1)) k) (k.held ∙ held))))
      where
        stuck : (v : World) → Left quiet r F v → Stuck quiet v
        stuck v h = record {
          recoverable = λ k e. covered v.files h.files k (sym h.saved ∙ e);
          broken = h.broken;
        }
