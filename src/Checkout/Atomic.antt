-- ===== src/Checkout/Atomic.antt =====
-- A whole checkout of crates/sync-core/src/checkout.rs, from its first journal on, and what a recovery makes
-- of one that was broken off.
use codex_session_sync.Prelude.{
  All, Bool, List, Result, [], ap, contains, err, false, if◌then◌else◌, inl, inr, map, none, ok,
  refl, some, subst, sym, true, ℕ, ◌++◌, ◌∙◌, ◌∷◌, ◌≡◌, nat_eq, string_eq, option_eq, list_eq,
}
use codex_session_sync.Checkout.Installed.{Once}
use codex_session_sync.Checkout.Recovered.{attempt_goes, TriedAt}
use codex_session_sync.Checkout.Rollback.{swap_of, failed_root_of, rollback_checkout}
use codex_session_sync.Checkout.Rewound.{swaps_of, site_of}
use codex_session_sync.Checkout.Concluded.{valid_again}
use codex_session_sync.Checkout.Sound.{is_unchanged, Sound, IsRecoverable}
use codex_session_sync.Checkout.Phases.{knowing-Sound, here, Revertible, Late}
use codex_session_sync.Checkout.Rules.{consequence, give_rule, bind_rule, Triple}
use codex_session_sync.Checkout.Calls.{touch_to, attempt_rule}
use codex_session_sync.Checkout.Journaling.{
  write_checkout_journal_rule, sequence, hold_goes, held_goes, goes_of, loosen, Goes,
}
use codex_session_sync.Checkout.Apply.{advance}
use codex_session_sync.Checkout.Transact.{clean_up, remove_tree, Plan}
use codex_session_sync.Checkout.Layout.{saved_path, database, failed_of, Elem, Layout, Role}
use codex_session_sync.Checkout.Databases.{add_catalogs}
use codex_session_sync.Checkout.Machine.{Machine}
use mathlib.Core.Option.{some-injective}
use codex_session_sync.Checkout.World.{attempt, refuse, World, Files, ◌>>=◌}
use codex_session_sync.Checkout.Journal.{
  CheckoutDirectorySwap, local_write_started, CheckoutError, validate_checkout_journal,
  CheckoutJournal, FilePath, completed, preparing,
}
use codex_session_sync.Checkout.Loops.{All-append}

-- What holds when a checkout writes its first journal: `role` tells the parts of the paths.
pub record Planned (m : Machine) (role : FilePath → Role) (plan : Plan) (j : CheckoutJournal)
    (w : World) : Type 0 where
  pub valid : validate_checkout_journal m.is_whitespace j ≡ ok tt
  pub layout : Layout (site_of role w.files j)
  pub fresh_status : j.status ≡ preparing
  pub no_backups : j.database_backups ≡ []
  pub unsaved : w.saved ≡ none
  pub fresh : (s : CheckoutDirectorySwap) → Elem s (swaps_of j) → w.files s.backup ≡ none
  pub free :
      (s : CheckoutDirectorySwap)
      → Elem s (swaps_of j)
      → w.files (failed_of (failed_root_of j) s.live) ≡ none
  pub once : Once (j.directory_swaps ++ map swap_of j.file_swaps)
  pub databases : All (λ p. role p ≡ database) plan.databases
  pub catalogs : All (λ p. role p ≡ database) plan.catalogs
  pub listed :
      (p : FilePath) → role p ≡ database → Elem p (add_catalogs plan.databases plan.catalogs)
  pub place : (i : ℕ) → role (plan.place i) ≡ saved_path i

-- The journal on the disk says that the checkout is complete.
pub record Completed (m : Machine) (role : FilePath → Role) (before : Files) (w : World)
    : Type 0 where
  pub journal : CheckoutJournal
  pub saved : w.saved ≡ some journal
  pub status : journal.status ≡ completed
  pub valid : validate_checkout_journal m.is_whitespace journal ≡ ok tt
  pub layout : Layout (site_of role before journal)

pub add_catalogs-All :
    (P : FilePath → Type 0) (databases catalogs : List FilePath)
    → All P databases
    → All P catalogs
    → All P (add_catalogs databases catalogs)
unfolding add_catalogs
add_catalogs-All P databases [] h k = h
add_catalogs-All P databases (c ∷ cs) h (k, ks) =
    add_catalogs-All P (if contains databases c then databases else databases ++ (c ∷ [])) cs
      (either (contains databases c)) ks
  where
    either : (b : Bool) → All P (if b then databases else databases ++ (c ∷ []))
    either true = h
    either false = All-append P databases (c ∷ []) h (k, tt)

module _ (m : Machine) (role : FilePath → Role) (before : Files) where
  pub Completed-IsRecoverable :
      (w : World) → Completed m role before w → IsRecoverable m role before w
  Completed-IsRecoverable w h k e =
      subst (λ j. Sound m role before j w.files) (some-injective _ _ (sym h.saved ∙ e))
        (record {
          valid = h.valid;
          layout = h.layout;
          covered = λ s. cc (s, ap local_write_started h.status);
          whole = λ s. cc (s, ap local_write_started h.status);
          unchanged = λ s. cc (s, ap is_unchanged h.status);
        })

  pub finish_goes :
      (w : World)
      → Late m role before w.held w.saved w.files
      → Goes
          (advance m completed)
          w
          (λ (u : Unit {0}). Completed m role before)
          (IsRecoverable m role before)
  unfolding advance
  finish_goes w h =
      let new = record w.held { status = completed; updated_at = m.now } in
      let valid : validate_checkout_journal m.is_whitespace new ≡ ok tt =
        valid_again m w.held completed m.now w.held.failure h.now.valid in
      held_goes _ refl (
        hold_goes (
          loosen
            (λ u v k. record {
              journal = new;
              saved = k.saved;
              status = refl;
              valid = valid;
              layout = h.now.layout;
            })
            (λ v k i e.
              subst (λ f. Sound m role before i f) (sym k.files)
                (elim k.saved [
                  | inl old ↦
                      knowing-Sound m role before w.held i w.files (h.past i (sym old ∙ e))
                        h.open_to
                  | inr gone ↦ cc (gone, e)
                ]))
            (write_checkout_journal_rule false (record w { held = new }) new m valid (λ q. cc))))

  removed_rule :
      {r : World} (root : FilePath)
      → Triple false r
          (λ f. Unit {0})
          (attempt (remove_tree root))
          (λ x f. Unit {0})
          (λ f. Unit {0})
  unfolding remove_tree
  removed_rule root =
      consequence (λ f h. tt) (λ x f h. tt) (λ f h. tt)
        (attempt_rule (
          touch_to {F = λ f. Unit {0}} {G = λ f. Unit {0}} {H = λ f. Unit {0}} (λ f h. tt)
            (λ f h q. cc) (λ f g h e. tt)))

  clean_up_rule :
      {r : World} (plan : Plan) (retain : Bool)
      → Triple false r (λ f. Unit {0}) (clean_up m plan retain) (λ u f. Unit {0}) (λ f. Unit {0})
  unfolding clean_up
  clean_up_rule plan true = bind_rule (removed_rule _) (λ x. give_rule tt (λ f h. tt))
  clean_up_rule plan false = bind_rule (removed_rule _) (λ x.
      bind_rule (removed_rule _) (λ y. bind_rule (removed_rule _) (λ z. give_rule tt (λ f h. tt))))

  pub clean_up_goes :
      (plan : Plan) (retain : Bool) (w : World)
      → Completed m role before w
      → Goes
          (clean_up m plan retain)
          w
          (λ (u : Unit {0}). Completed m role before)
          (IsRecoverable m role before)
  clean_up_goes plan retain w h =
      loosen (λ u v k. still v k.saved) (λ v k. Completed-IsRecoverable v (still v k.saved))
        (goes_of (clean_up_rule plan retain) w (here m role before {F = λ f. Unit {0}} w tt))
    where
      still : (v : World) → v.saved ≡ w.saved → Completed m role before v
      still v e = record {
        journal = h.journal;
        saved = e ∙ h.saved;
        status = h.status;
        valid = h.valid;
        layout = h.layout;
      }

  -- The error is passed on after the rollback, however the rollback ended.
  pub refused_goes :
      (e : CheckoutError) (w : World)
      → Revertible m role before w
      → Goes
          (attempt (rollback_checkout m (some e)) >>= λ undone. refuse {A = Unit {0}} e)
          w
          (λ (u : Unit {0}). Completed m role before)
          (IsRecoverable m role before)
  unfolding refuse
  refused_goes e w h =
      sequence (loosen (λ x v k. k) (λ v k. k) (attempt_goes (h.reverts (some e))))
        (λ x v k. record { ends = either x v k })
    where
      either :
          (x : Result CheckoutError (Unit {0})) (v : World)
          → TriedAt (λ u. IsRecoverable m role before) (IsRecoverable m role before) x v
          → IsRecoverable m role before v
      either (ok u) v k = k
      either (err y) v k = k
