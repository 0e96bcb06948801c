-- ===== src/Checkout/Phases.antt =====
-- The state of a checkout (crates/sync-core/src/checkout.rs) before and after it begins to write, and what a
-- rollback does from either.
use codex_session_sync.Prelude.{
  All, Bool, List, Option, false, map, ok, refl, some, subst, sym, true, ℕ, ◌++◌, ◌<◌, ◌∙◌, ◌≡◌,
  ◌⊎◌, nat_eq, string_eq, option_eq, list_eq,
}
use codex_session_sync.Checkout.Resumed.{prepared}
use codex_session_sync.Checkout.Rollback.{undo, swap_of, rollback_checkout}
use codex_session_sync.Checkout.Installed.{Once}
use codex_session_sync.Checkout.Concluded.{valid_again, Concludes, Stuck, Undid, rollback_goes}
use codex_session_sync.Checkout.Journaling.{loosen, Goes}
use codex_session_sync.Checkout.Rewound.{undo_rule, Covers, site_of}
use codex_session_sync.Checkout.Idle.{Idle-Open, Idle-undo_rule, Idle}
use codex_session_sync.Checkout.Sound.{
  started_not-unchanged, skip_undo_rule, Sound, is_unchanged, IsRecoverable,
}
use codex_session_sync.Checkout.Rules.{consequence, Triple, At}
use codex_session_sync.Checkout.Layout.{Open, Elem, database, saved_path, Layout, Agrees, Role}
use codex_session_sync.Checkout.Journal.{
  Failure, CheckoutDatabaseBackup, validate_checkout_journal, CheckoutError, local_write_started,
  CheckoutJournal, FilePath,
}
use codex_session_sync.Checkout.Machine.{Machine}
use mathlib.Core.Option.{some-injective}
use codex_session_sync.Checkout.World.{World, Files}

module _ (m : Machine) (role : FilePath → Role) (before : Files) where
  -- A rollback from here leaves a sound journal, however it ends.
  pub record Revertible (w : World) : Type 0 where
    pub recoverable : IsRecoverable m role before w
    pub reverts :
        (cause : Option CheckoutError)
        → Goes
            (rollback_checkout m cause)
            w
            (λ (u : Unit {0}). IsRecoverable m role before)
            (IsRecoverable m role before)

  pub record IsPast (k : CheckoutJournal) : Type 0 where
    pub valid : validate_checkout_journal m.is_whitespace k ≡ ok tt
    pub layout : Layout (site_of role before k)
    pub unchanged : is_unchanged k.status ≡ true

  -- Nothing has been written: `n` backups were made, those of `rest` are to come.
  pub record Early (n : ℕ) (rest : List FilePath) (held : CheckoutJournal)
      (saved : Option CheckoutJournal) (files : Files) : Type 0 where
    pub now : IsPast held
    pub idle : Idle (site_of role before held) held.database_backups files
    pub once : Once (held.directory_swaps ++ map swap_of held.file_swaps)
    pub below : All (λ b. (k : ℕ) × (role b.backup ≡ saved_path k) × (k < n)) held.database_backups
    pub cover :
        (p : FilePath)
        → role p ≡ database
        → Elem p rest
          ⊎ ((b : CheckoutDatabaseBackup) × Elem b held.database_backups × (p ≡ b.target))
    pub past : (k : CheckoutJournal) → saved ≡ some k → IsPast k

  pub past-Sound :
      (k : CheckoutJournal) (f : Files)
      → IsPast k
      → Agrees (site_of role before k) f
      → Sound m role before k f
  past-Sound k f p h = record {
    valid = p.valid;
    layout = p.layout;
    covered = λ e. cc (e, started_not-unchanged k.status p.unchanged);
    whole = λ e. cc (e, started_not-unchanged k.status p.unchanged);
    unchanged = λ e. h;
  }

  pub here : {F : Files → Type 0} (w : World) → F w.files → At false w F w
  here w f = record {
    saved = refl;
    unsaved = refl;
    held = refl;
    tracking = refl;
    files = f;
    calm = λ q. cc;
  }

  loosened :
      {quiet : Bool} (j : CheckoutJournal) (cause : Option CheckoutError) (w : World)
      → Goes
          (rollback_checkout m cause)
          w
          (λ u. Undid m role before j cause quiet)
          (Stuck m role before j cause quiet)
      → validate_checkout_journal m.is_whitespace j ≡ ok tt
      → Layout (site_of role before j)
      → Goes
          (rollback_checkout m cause)
          w
          (λ (u : Unit {0}). IsRecoverable m role before)
          (IsRecoverable m role before)
  loosened j cause w h valid layout =
      loosen
        (λ u v k i e.
          subst (λ x. Sound m role before x v.files) (some-injective _ _ (sym k.saved ∙ e))
            (record {
              valid = valid_again m j _ _ _ valid;
              layout = layout;
              covered = λ s. cc;
              whole = λ s. cc;
              unchanged = λ s. k.agrees;
            }))
        (λ v k. k.recoverable) h

  -- Before the live files may be touched, a rollback only removes what was staged.
  pub Early-Revertible :
      (n : ℕ) (rest : List FilePath) (w : World)
      → Early n rest w.held w.saved w.files
      → Revertible w
  Early-Revertible n rest w h = record {
    recoverable = λ k e. past-Sound k w.files (h.past k e) h.idle.agrees;
    reverts = λ cause.
        let idle : local_write_started w.held.status ≡ false =
          started_not-unchanged w.held.status h.now.unchanged in
        loosened w.held cause w
          (rollback_goes m role before w.held cause {quiet = false} w
            {F = Agrees (site_of role before w.held)} refl (here w h.idle.agrees)
            (λ f x k e. past-Sound k f (h.past k e) x)
            (subst
              (λ b.
                Triple false w (Agrees (site_of role before w.held)) (undo b w.held)
                  (λ failures f.
                    Agrees (site_of role before w.held) f
                    × Concludes m role before w.held cause false failures f)
                  (Agrees (site_of role before w.held)))
              (sym idle)
              (consequence (λ f x. x)
                (λ failures f x. (
                  x.0,
                  subst (λ y. Concludes m role before w.held cause false y f) (sym x.1)
                      (record {
                        sound = record {
                          valid = valid_again m w.held _ _ _ h.now.valid;
                          layout = h.now.layout;
                          covered = λ e. cc;
                          whole = λ e. cc;
                          unchanged = λ e. x.0;
                        };
                        silent = λ q. refl;
                      }),
                ))
                (λ f x. x) (skip_undo_rule m role before w.held h.now.layout))))
          h.now.valid h.now.layout;
  }

  -- Writing may have begun: everything can be undone, and the journal on the disk knows all backups.
  pub record IsKnowing (h k : CheckoutJournal) : Type 0 where
    pub valid : validate_checkout_journal m.is_whitespace k ≡ ok tt
    pub layout : Layout (site_of role before k)
    pub started : local_write_started k.status ≡ true
    pub covers : Covers role k.database_backups
    pub whole :
        (f : Files)
        → Open (site_of role before h) h.database_backups f
        → Open (site_of role before k) k.database_backups f

  pub record Late (held : CheckoutJournal) (saved : Option CheckoutJournal) (files : Files)
      : Type 0 where
    pub now : IsKnowing held held
    pub open_to : Open (site_of role before held) held.database_backups files
    pub past : (k : CheckoutJournal) → saved ≡ some k → IsKnowing held k

  pub knowing-Sound :
      (h k : CheckoutJournal) (f : Files)
      → IsKnowing h k
      → Open (site_of role before h) h.database_backups f
      → Sound m role before k f
  knowing-Sound h k f p o = record {
    valid = p.valid;
    layout = p.layout;
    covered = λ e. p.covers;
    whole = λ e. p.whole f o;
    unchanged = λ e. cc (p.started, started_not-unchanged k.status e);
  }

  pub Late-Revertible : (w : World) → Late w.held w.saved w.files → Revertible w
  Late-Revertible w h = record {
    recoverable = λ k e. knowing-Sound w.held k w.files (h.past k e) h.open_to;
    reverts = λ cause.
        loosened w.held cause w
          (rollback_goes m role before w.held cause {quiet = false} w
            {F = Open (site_of role before w.held) w.held.database_backups} refl (here w h.open_to)
            (λ f x k e. knowing-Sound w.held k f (h.past k e) x)
            (subst
              (λ b.
                Triple false w (Open (site_of role before w.held) w.held.database_backups)
                  (undo b w.held)
                  (λ failures f.
                    Open (site_of role before w.held) w.held.database_backups f
                    × Concludes m role before w.held cause false failures f)
                  (Open (site_of role before w.held) w.held.database_backups))
              (sym h.now.started)
              (consequence (λ f x. x)
                (λ failures f x. (
                  x.whole,
                  prepared m role before w.held h.now.layout cause h.now.valid h.now.covers failures
                      f x,
                ))
                (λ f x. x) (undo_rule role before w.held h.now.layout h.now.covers))))
          h.now.valid h.now.layout;
  }

  -- Writing has begun in the process, and no further: the journal on the disk may not say so yet.
  pub record Between (held : CheckoutJournal) (saved : Option CheckoutJournal) (files : Files)
      : Type 0 where
    pub valid : validate_checkout_journal m.is_whitespace held ≡ ok tt
    pub layout : Layout (site_of role before held)
    pub covers : Covers role held.database_backups
    pub idle : Idle (site_of role before held) held.database_backups files
    pub past : (k : CheckoutJournal) → saved ≡ some k → IsPast k

  between-Concludes :
      (h : CheckoutJournal) (cause : Option CheckoutError)
      → validate_checkout_journal m.is_whitespace h ≡ ok tt
      → (layout : Layout (site_of role before h)) → Covers role h.database_backups
      → (failures : List Failure) (f : Files) → Idle (site_of role before h) h.database_backups f
      → Concludes m role before h cause false failures f
  between-Concludes h cause valid layout covers failures f i =
      prepared m role before h layout cause valid covers failures f
        (record { whole = Idle-Open layout f i; rewound = λ e. i.agrees; silent = λ q. cc })

  pub Between-Revertible : (w : World) → Between w.held w.saved w.files → Revertible w
  Between-Revertible w h = record {
    recoverable = λ k e. past-Sound k w.files (h.past k e) h.idle.agrees;
    reverts = λ cause.
        loosened w.held cause w
          (rollback_goes m role before w.held cause {quiet = false} w
            {F = Idle (site_of role before w.held) w.held.database_backups} refl (here w h.idle)
            (λ f x k e. past-Sound k f (h.past k e) x.agrees)
            (consequence (λ f x. x)
              (λ failures f x.
                (x.0, between-Concludes w.held cause h.valid h.layout h.covers failures f x.0))
              (λ f x. x)
              (Idle-undo_rule role before w.held h.layout (local_write_started w.held.status))))
          h.valid h.layout;
  }
