-- ===== src/Checkout/Resumed.antt =====
-- `recover_checkout_operation` of crates/sync-core/src/checkout.rs: where it can end from a sound journal.
use codex_session_sync.Prelude.{
  Bool, List, Option, Result, [], ap, err, false, inl, inr, none, ok, ok_or, refl, some, subst, sym,
  true, ◌∙◌, ◌∷◌, ◌≡◌, nat_eq, string_eq, option_eq, list_eq,
}
use codex_session_sync.Checkout.Recovery.{
  read_journal, recover_at, recover_checkout_operation, recover_local_applied, complete,
  reject_local_applied_recovery,
}
use codex_session_sync.Checkout.Recovered.{
  apply_tracking_update-Same, look-Same, Same-trans, pause-Same, attempt_goes, TriedAt, Same,
}
use codex_session_sync.Checkout.Rollback.{undo, rollback_checkout}
use codex_session_sync.Checkout.Rules.{consequence, Triple, At}
use codex_session_sync.Checkout.Journaling.{
  lift_goes, write_checkout_journal_rule, sequence, hold_goes, held_goes, Unwritten, loosen, Goes,
}
use codex_session_sync.Checkout.Concluded.{Stuck, rollback_goes, Undid, valid_again, Concludes}
use codex_session_sync.Checkout.Apply.{
  refuse_if, apply_tracking_update, validate_checkout_journal_result,
}
use codex_session_sync.Checkout.Rewound.{undo_rule, Covers, Rewound, site_of}
use codex_session_sync.Checkout.Sound.{
  started_not-unchanged, skip_undo_rule, is_unchanged, Sound, IsRecoverable,
}
use codex_session_sync.Checkout.Layout.{Open, Layout, Agrees, Role}
use codex_session_sync.Checkout.Machine.{Machine}
use mathlib.Core.Option.{some-injective}
use codex_session_sync.Checkout.World.{
  Action, give, attempt, look, pause, refuse, World, Files, ◌>>=◌, ◌>>◌,
}
use codex_session_sync.Checkout.Journal.{
  not_confirmed_closed, io_error, interrupted, validate_checkout_journal, is_finished, Failure,
  local_write_started, CheckoutError, CheckoutJournal, FilePath, CheckoutStatus, preparing,
  backed_up, applying, validating, local_applied, completed, rolled_back, recovery_required,
}

module _ (m : Machine) (role : FilePath → Role) (before : Files) where
  -- How a recovery goes through: the operation was undone, or the applied one was validated and completed,
  -- or it had ended before.
  pub data Settled (j : CheckoutJournal) (v : World) : Type 0 where
    undone :
        v.held.status ≡ rolled_back
        → v.saved ≡ some v.held
        → Agrees (site_of role before j) v.files
        → Settled j v
    applied :
        j.status ≡ local_applied
        → v.held.status ≡ completed
        → v.saved ≡ some v.held
        → validate_checkout_journal_result m j v.files ≡ ok tt
        → Settled j v
    ended : is_finished j.status ≡ true → v.saved ≡ some j → Settled j v

  -- How it does not: the journal on the disk is sound, and without a fault it is a refusal of an applied
  -- checkout that leaves the files alone.
  pub record Refused (quiet : Bool) (j : CheckoutJournal) (w v : World) : Type 0 where
    pub recoverable : IsRecoverable m role before v
    pub untouched : quiet ≡ true → (j.status ≡ local_applied) × (v.files ≡ w.files)

  -- What the loops prepare where writing had begun.
  pub prepared :
      {quiet : Bool} (j : CheckoutJournal) (layout : Layout (site_of role before j))
      (cause : Option CheckoutError)
      → validate_checkout_journal m.is_whitespace j ≡ ok tt
      → Covers role j.database_backups
      → (failures : List Failure) (f : Files) → Rewound role before j layout quiet failures f
      → Concludes m role before j cause quiet failures f
  prepared j layout cause valid covers [] f h = record {
    sound = record {
      valid = valid_again m j _ _ _ valid;
      layout = layout;
      covered = λ e. cc;
      whole = λ e. cc;
      unchanged = λ e. h.rewound refl;
    };
    silent = h.silent;
  }
  prepared j layout cause valid covers (x ∷ failures) f h = record {
    sound = record {
      valid = valid_again m j _ _ _ valid;
      layout = layout;
      covered = λ e. covers;
      whole = λ e. h.whole;
      unchanged = λ e. cc;
    };
    silent = h.silent;
  }

  module _ {quiet : Bool} (w : World) (j : CheckoutJournal) (sound : Sound m role before j w.files)
      (held : w.held ≡ j) (saved : w.saved ≡ some j) (calm : quiet ≡ true → w.fates ≡ []) where
    settle :
        (cause : Option CheckoutError)
        → Goes
            (rollback_checkout m cause)
            w
            (λ u. Undid m role before j cause quiet)
            (Stuck m role before j cause quiet)
        → Goes (rollback_checkout m cause) w (λ u. Settled j) (Refused quiet j w)
    settle cause h =
        loosen
          (λ u v k.
            undone (ap (λ (x : CheckoutJournal). x.status) k.held) (k.saved ∙ ap some (sym k.held))
              k.agrees)
          (λ v k. record { recoverable = k.recoverable; untouched = λ q. absurd (k.broken q) }) h

    here : {F : Files → Type 0} → F w.files → At quiet w F w
    here f = record {
      saved = refl;
      unsaved = refl;
      held = refl;
      tracking = refl;
      files = f;
      calm = calm;
    }

    roll_back_started :
        (cause : Option CheckoutError)
        → local_write_started j.status ≡ true
        → Goes (rollback_checkout m cause) w (λ u. Settled j) (Refused quiet j w)
    roll_back_started cause started = settle cause (
        rollback_goes m role before j cause w {F = Open (site_of role before j) j.database_backups}
          held (here (sound.whole started))
          (λ f h k e.
            subst (λ x. Sound m role before x f) (some-injective _ _ (sym saved ∙ e))
              (record {
                valid = sound.valid;
                layout = sound.layout;
                covered = sound.covered;
                whole = λ s. h;
                unchanged = λ u. cc (started, started_not-unchanged j.status u);
              }))
          (subst
            (λ b.
              Triple quiet w (Open (site_of role before j) j.database_backups) (undo b j)
                (λ failures f.
                  Open (site_of role before j) j.database_backups f
                  × Concludes m role before j cause quiet failures f)
                (Open (site_of role before j) j.database_backups))
            (sym started)
            (consequence (λ f h. h)
              (λ failures f h. (
                h.whole,
                prepared j sound.layout cause sound.valid (sound.covered started) failures f h,
              ))
              (λ f h. h) (undo_rule role before j sound.layout (sound.covered started)))))

    roll_back_unchanged :
        (cause : Option CheckoutError)
        → is_unchanged j.status ≡ true
        → Goes (rollback_checkout m cause) w (λ u. Settled j) (Refused quiet j w)
    roll_back_unchanged cause same =
        let idle : local_write_started j.status ≡ false = started_not-unchanged j.status same in
        settle cause (
          rollback_goes m role before j cause w {F = Agrees (site_of role before j)} held
            (here (sound.unchanged same))
            (λ f h k e.
              subst (λ x. Sound m role before x f) (some-injective _ _ (sym saved ∙ e))
                (record {
                  valid = sound.valid;
                  layout = sound.layout;
                  covered = sound.covered;
                  whole = λ s. cc (s, idle);
                  unchanged = λ u. h;
                }))
            (subst
              (λ b.
                Triple quiet w (Agrees (site_of role before j)) (undo b j)
                  (λ failures f.
                    Agrees (site_of role before j) f
                    × Concludes m role before j cause quiet failures f)
                  (Agrees (site_of role before j)))
              (sym idle)
              (consequence (λ f h. h)
                (λ failures f h. (
                  h.0,
                  subst (λ x. Concludes m role before j cause quiet x f) (sym h.1)
                      (record {
                        sound = record {
                          valid = valid_again m j _ _ _ sound.valid;
                          layout = sound.layout;
                          covered = λ e. cc;
                          whole = λ e. cc;
                          unchanged = λ e. h.0;
                        };
                        silent = λ q. refl;
                      }),
                ))
                (λ f h. h) (skip_undo_rule m role before j sound.layout))))

    -- A journal of a world with the same files is sound with another message, or when completed.
    module _ (local : j.status ≡ local_applied) (v : World) (same : Same quiet w v) where
      Sound-now : Sound m role before j v.files
      Sound-now = subst (Sound m role before j) (sym same.files) sound

      -- What is left where the journal `k` was being written.
      while_writing :
          (k : CheckoutJournal) (x : World)
          → Unwritten quiet (record v { held = k }) x
          → Refused quiet j w x
      while_writing k x h = record {
        recoverable = λ i e. elim h.saved [
          | inl old ↦
              subst (λ f. Sound m role before i f) (sym h.files)
                (subst (λ y. Sound m role before y v.files)
                  (some-injective _ _ (sym saved ∙ (sym same.saved ∙ (sym old ∙ e)))) Sound-now)
          | inr gone ↦ cc (gone, e)
        ];
        untouched = λ q. absurd (h.broken q);
      }

      rejected : CheckoutError → CheckoutJournal
      rejected e = record j {
        updated_at = m.now;
        failure = some (record { cause = some e; failures = [] });
      }

      rejected-Sound : (e : CheckoutError) → Sound m role before (rejected e) v.files
      unfolding rejected
      rejected-Sound e = record {
        valid = valid_again m j _ _ _ Sound-now.valid;
        layout = Sound-now.layout;
        covered = Sound-now.covered;
        whole = Sound-now.whole;
        unchanged = Sound-now.unchanged;
      }

      reject_goes :
          (e : CheckoutError)
          → Goes (reject_local_applied_recovery m e) v (λ u. Settled j) (Refused quiet j w)
      unfolding reject_local_applied_recovery refuse rejected
      reject_goes e = held_goes _ (same.held ∙ held) (
          hold_goes (
            sequence
              (loosen (λ u x k. k) (while_writing (rejected e))
                (write_checkout_journal_rule quiet (record v { held = rejected e }) (rejected e) m
                  (rejected-Sound e).valid same.calm))
              (λ u x k. record {
                ends = record {
                  recoverable = λ i y.
                      subst (λ f. Sound m role before i f) (sym k.files)
                        (subst (λ z. Sound m role before z v.files)
                          (some-injective _ _ (sym k.saved ∙ y)) (rejected-Sound e));
                  untouched = λ q. (local, k.files ∙ same.files);
                };
              })))

      fulfilled : CheckoutJournal
      fulfilled = record j { status = completed; updated_at = m.now; failure = none }

      complete_goes :
          validate_checkout_journal_result m j v.files ≡ ok tt
          → Goes (complete m) v (λ u. Settled j) (Refused quiet j w)
      unfolding complete fulfilled
      complete_goes checked = held_goes _ (same.held ∙ held) (
          hold_goes (
            loosen
              (λ u x k.
                applied local (ap (λ (y : CheckoutJournal). y.status) k.held)
                  (k.saved ∙ ap some (sym k.held))
                  (ap (validate_checkout_journal_result m j) k.files ∙ checked))
              (while_writing fulfilled)
              (write_checkout_journal_rule quiet (record v { held = fulfilled }) fulfilled m
                (valid_again m j completed m.now none Sound-now.valid) same.calm)))

    module _ (local : j.status ≡ local_applied) where
      Checked : Unit {0} → World → Type 0
      Checked u v = Same quiet w v × (validate_checkout_journal_result m j v.files ≡ ok tt)

      halted : (v : World) → Same quiet w v → Refused quiet j w v
      halted v s = record {
        recoverable = λ k e.
            subst (λ f. Sound m role before k f) (sym s.files)
              (subst (λ y. Sound m role before y w.files)
                (some-injective _ _ (sym saved ∙ (sym s.saved ∙ e))) sound);
        untouched = λ q. (local, s.files);
      }

      either-Same :
          (v : World) (x : Result CheckoutError (Unit {0})) (y : World)
          → TriedAt (λ (u : Unit {0}). Same quiet v) (Same quiet v) x y
          → Same quiet v y
      either-Same v (ok u) y h = h
      either-Same v (err e) y h = h

      check_goes :
          Goes (pause >> look (validate_checkout_journal_result m j)) w Checked (Same quiet w)
      unfolding Checked
      check_goes = sequence (pause-Same calm) (λ u v s.
          loosen (λ a x k. (Same-trans s k.0, k.1)) (λ x k. Same-trans s k)
            (look-Same (validate_checkout_journal_result m j) s.calm))

      tracked_goes :
          (x : Result CheckoutError (Unit {0})) (v : World)
          → Same quiet w v
          → validate_checkout_journal_result m j v.files ≡ ok tt
          → Goes
              (elim x [ err e ↦ reject_local_applied_recovery m e | ok u ↦ complete m ])
              v
              (λ u. Settled j)
              (Refused quiet j w)
      tracked_goes (err e) v same checked = reject_goes local v same e
      tracked_goes (ok u) v same checked = complete_goes local v same checked

      Checked-goes :
          (x : Result CheckoutError (Unit {0})) (v : World)
          → TriedAt Checked (Same quiet w) x v
          → Goes
              (elim x [
                | err e ↦ reject_local_applied_recovery m e
                | ok u ↦ attempt (apply_tracking_update m j) >>= λ tracked. elim tracked [
                  | err e ↦ reject_local_applied_recovery m e
                  | ok v ↦ complete m
                ]
              ])
              v
              (λ u. Settled j)
              (Refused quiet j w)
      unfolding Checked
      Checked-goes (err e) v same = reject_goes local v same e
      Checked-goes (ok u) v h =
          sequence
            (loosen (λ x y k. k) (λ y k. halted y (Same-trans h.0 k))
              (attempt_goes (apply_tracking_update-Same m j h.0.calm)))
            (λ x y k.
              let s : Same quiet v y = either-Same v x y k in
              tracked_goes x y (Same-trans h.0 s)
                (ap (validate_checkout_journal_result m j) s.files ∙ h.1))

      recover_local_goes : Goes (recover_local_applied m) w (λ u. Settled j) (Refused quiet j w)
      unfolding recover_local_applied
      recover_local_goes =
          held_goes _ held
            (sequence (loosen (λ x v k. k) halted (attempt_goes check_goes)) Checked-goes)

    at_rest :
        is_finished j.status ≡ true
        → Goes (give tt) w (λ (u : Unit {0}). Settled j) (Refused quiet j w)
    unfolding give
    at_rest e = record { ends = ended e saved }

    recover_at_goes :
        (status : CheckoutStatus)
        → j.status ≡ status
        → Goes (recover_at m status) w (λ u. Settled j) (Refused quiet j w)
    unfolding recover_at
    recover_at_goes preparing e = roll_back_unchanged (some interrupted) (ap is_unchanged e)
    recover_at_goes backed_up e = roll_back_unchanged (some interrupted) (ap is_unchanged e)
    recover_at_goes applying e = roll_back_started (some interrupted) (ap local_write_started e)
    recover_at_goes validating e = roll_back_started (some interrupted) (ap local_write_started e)
    recover_at_goes local_applied e = recover_local_goes e
    recover_at_goes completed e = at_rest (ap is_finished e)
    recover_at_goes rolled_back e = at_rest (ap is_finished e)
    recover_at_goes recovery_required e =
        roll_back_started (some interrupted) (ap local_write_started e)

  read_goes :
      {B : Type 0} {P : B → World → Type 0} {R : World → Type 0} (k : CheckoutJournal → Action B)
      {w : World} {j : CheckoutJournal}
      → w.saved ≡ some j
      → Goes (k j) w P R
      → Goes (read_journal >>= k) w P R
  unfolding read_journal ◌>>=◌
  read_goes k e h = record { ends = (lift_goes k (ap (λ o. ok_or o io_error) e) h).ends }

  confirmed_goes :
      {B : Type 0} {P : B → World → Type 0} {R : World → Type 0} {k : Action B} {w : World}
      (e : CheckoutError)
      → Goes k w P R
      → Goes (refuse_if false e >> k) w P R
  unfolding refuse_if give ◌>>=◌
  confirmed_goes e h = record { ends = h.ends }

  -- From a sound journal a confirmed recovery settles the operation, or it leaves a sound journal.
  pub recover_goes :
      {quiet : Bool} (w : World) (j : CheckoutJournal)
      → IsRecoverable m role before w
      → w.saved ≡ some j
      → (quiet ≡ true → w.fates ≡ [])
      → Goes (recover_checkout_operation m true) w (λ (u : Unit {0}). Settled j) (Refused quiet j w)
  unfolding recover_checkout_operation
  recover_goes w j recoverable saved calm = confirmed_goes not_confirmed_closed (
      read_goes _ saved (
        hold_goes (
          lift_goes _ (recoverable j saved).valid (
            loosen (λ u v k. k)
              (λ v k. record { recoverable = k.recoverable; untouched = k.untouched })
              (recover_at_goes (record w { held = j }) j (recoverable j saved) refl saved calm
                j.status refl)))))
