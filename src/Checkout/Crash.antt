-- ===== src/Checkout/Crash.antt =====
-- Checkouts of crates/sync-core/src/checkout.rs that are broken off anywhere, and the recoveries after them.
use codex_session_sync.Prelude.{
  All, List, Result, [], ap, err, false, inl, ok, refl, some, subst, sym, true, ◌≡◌, nat_eq,
  string_eq, option_eq, list_eq,
}
use codex_session_sync.Checkout.Resumed.{recover_goes, Settled}
use codex_session_sync.Checkout.Writing.{write_local_goes}
use codex_session_sync.Checkout.Early.{write_early}
use codex_session_sync.Checkout.Apply.{advance}
use codex_session_sync.Checkout.Rollback.{rollback_checkout}
use codex_session_sync.Checkout.Recovered.{attempt_goes, TriedAt}
use codex_session_sync.Checkout.Rewound.{site_of}
use codex_session_sync.Checkout.Sound.{is_unchanged, IsRecoverable}
use codex_session_sync.Checkout.Databases.{add_catalogs}
use codex_session_sync.Checkout.Journaling.{hold_goes, loosen, sequence, Goes}
use codex_session_sync.Checkout.Phases.{Revertible, Late, Early}
use codex_session_sync.Checkout.Atomic.{
  Completed-IsRecoverable, add_catalogs-All, clean_up_goes, finish_goes, refused_goes, Completed,
  Planned,
}
use codex_session_sync.Checkout.Recovery.{recover_checkout_operation}
use codex_session_sync.Checkout.Rules.{Ends}
use codex_session_sync.Checkout.Transact.{clean_up, transact, Plan}
use codex_session_sync.Checkout.Layout.{database, Saved, Role}
use codex_session_sync.Checkout.Machine.{Machine}
use codex_session_sync.Checkout.World.{
  Files, refuse, attempt, World, Fate, Run, done, failed, stopped, ◌>>=◌, ◌>>◌,
}
use codex_session_sync.Checkout.Journal.{
  completed, CheckoutError, CheckoutJournal, FilePath, local_applied,
}

-- The world in which a run ends, whether it gives a result, an error, or is broken off.
unfoldable pub end_of : {A : Type 0} → Run A → World
end_of (done a w) = w
end_of (failed e w) = w
end_of (stopped w) = w

-- The process is started again, with other faults ahead.
unfoldable pub restarted : List Fate → World → World
restarted fates w = record w { fates = fates }

-- The second world comes from the first by recoveries, each of which was broken off or gave an error.
pub data Retried (m : Machine) (w : World) : World → Type 0 where
  not_yet : Retried m w w
  retried :
      (v x : World) (k : CheckoutJournal) (fates : List Fate)
      → Retried m w v
      → v.saved ≡ some k
      → Ends (λ u y. ⊥) (λ y. y ≡ x) (recover_checkout_operation m true (restarted fates v))
      → Retried m w x

module _ (m : Machine) (role : FilePath → Role) where
  started :
      (plan : Plan) (j : CheckoutJournal) (w : World)
      → Planned m role plan j w
      → Early m role w.files 0 (add_catalogs plan.databases plan.catalogs) j w.saved w.files
  started plan j w h = record {
    now = record { valid = h.valid; layout = h.layout; unchanged = ap is_unchanged h.fresh_status };
    idle = record {
      agrees = λ p e. refl;
      fresh = h.fresh;
      free = h.free;
      saved = subst (All (Saved (site_of role w.files j) w.files)) (sym h.no_backups) tt;
    };
    once = h.once;
    below = subst (All _) (sym h.no_backups) tt;
    cover = λ p e. inl (h.listed p e);
    past = λ k e. cc (e, h.unsaved);
  }

  pub transact_goes :
      (plan : Plan) (j : CheckoutJournal) (w : World)
      → Planned m role plan j w
      → Goes
          (transact m plan j)
          w
          (λ (u : Unit {0}). Completed m role w.files)
          (IsRecoverable m role w.files)
  unfolding transact
  transact_goes plan j w h =
      let before = w.files in
      let ps = add_catalogs plan.databases plan.catalogs in
      hold_goes (
        sequence
          (loosen (λ u v k. k) (λ v k. k.recoverable)
            (write_early m role before 0 ps (record w { held = j }) (started plan j w h)))
          (λ a v hv.
            sequence
              (loosen (λ x y k. k) (λ y k. k.recoverable)
                (attempt_goes (
                  write_local_goes m role before plan h.place
                    (add_catalogs-All (λ p. role p ≡ database) plan.databases plan.catalogs
                      h.databases h.catalogs)
                    v h.databases h.catalogs hv)))
              (λ x y k. outcome x y k)))
    where
      outcome :
          (x : Result CheckoutError (Unit {0})) (v : World)
          → TriedAt
              (λ u y. Late m role w.files y.held y.saved y.files)
              (Revertible m role w.files)
              x
              v
          → Goes
              (elim x [
                | err e ↦ attempt (rollback_checkout m (some e)) >>= λ undone. refuse e
                | ok u ↦ advance m completed >> clean_up m plan j.retain_recovery_backup
              ])
              v
              (λ (u : Unit {0}). Completed m role w.files)
              (IsRecoverable m role w.files)
      outcome (err e) v k = refused_goes m role w.files e v k
      outcome (ok u) v k =
          sequence (loosen (λ b y n. n) (λ y n. n) (finish_goes m role w.files v k))
            (λ b y n. clean_up_goes m role w.files plan j.retain_recovery_backup y n)

broken_at :
    {A : Type 0} (Q : A → World → Type 0) (R : World → Type 0) (run : Run A) (x : World)
    → Ends Q R run
    → Ends (λ (a : A) y. ⊥) (λ y. y ≡ x) run
    → R x
broken_at Q R (done a v) x h e = absurd e
broken_at Q R (failed c v) x h e = subst R e h
broken_at Q R (stopped v) x h e = subst R e h

module _ (m : Machine) (role : FilePath → Role) where
  -- A checkout from a planned world that gives a result leaves a journal that says it is complete. Whatever fails
  -- or stops it, it leaves no journal, or a sound one: it is valid, and while its status says that nothing has
  -- been written, or that all was undone, the files are those of before; while it says that writing has begun,
  -- what each swap has replaced can be put back and each database has a whole backup.
  pub transact_lem :
      (plan : Plan) (j : CheckoutJournal) (w : World)
      → Planned m role plan j w
      → Ends (λ u. Completed m role w.files) (IsRecoverable m role w.files) (transact m plan j w)
  transact_lem plan j w h = (transact_goes m role plan j w h).ends

  -- A confirmed recovery from a sound journal, whatever fails or stops it, settles the operation, or leaves a
  -- journal that is sound again, or none.
  pub recover_checkout_operation-IsRecoverable :
      (before : Files) (w : World) (k : CheckoutJournal)
      → IsRecoverable m role before w
      → w.saved ≡ some k
      → Ends
          (λ u. Settled m role before k)
          (IsRecoverable m role before)
          (recover_checkout_operation m true w)
  recover_checkout_operation-IsRecoverable before w k h e =
      (loosen (λ u v x. x) (λ v x. x.recoverable)
        (recover_goes m role before {quiet = false} w k h e (λ q. cc))).ends

  -- A confirmed recovery from a sound journal that nothing fails settles the operation; only one whose files
  -- had all been applied may be refused, and then no file is changed.
  pub recover_checkout_operation-Settled :
      (before : Files) (w : World) (k : CheckoutJournal)
      → IsRecoverable m role before w
      → w.saved ≡ some k
      → w.fates ≡ []
      → Ends
          (λ u. Settled m role before k)
          (λ v. (k.status ≡ local_applied) × (v.files ≡ w.files))
          (recover_checkout_operation m true w)
  recover_checkout_operation-Settled before w k h e calm =
      (loosen (λ u v x. x) (λ v x. x.untouched refl)
        (recover_goes m role before {quiet = true} w k h e (λ q. calm))).ends

  Retried-IsRecoverable :
      (before : Files) (w : World) {x : World}
      → IsRecoverable m role before w
      → Retried m w x
      → IsRecoverable m role before x
  unfolding restarted
  Retried-IsRecoverable before w h not_yet = h
  Retried-IsRecoverable before w h (retried v x k fates before_it saved run) =
      broken_at _ (IsRecoverable m role before) _ x
        (recover_checkout_operation-IsRecoverable before (restarted fates v) k
          (Retried-IsRecoverable before w h before_it) saved)
        run

  pub end-IsRecoverable :
      (before : Files) (run : Run (Unit {0}))
      → Ends (λ u. Completed m role before) (IsRecoverable m role before) run
      → IsRecoverable m role before (end_of run)
  unfolding end_of
  end-IsRecoverable before (done u v) h = Completed-IsRecoverable m role before v h
  end-IsRecoverable before (failed e v) h = h
  end-IsRecoverable before (stopped v) h = h

  -- Wherever a checkout from a planned world ends, and however many recoveries after it are broken off: if its
  -- journal is on the disk, a confirmed recovery that nothing fails settles the operation, or refuses one whose
  -- files had all been applied and changes no file.
  pub transact-recover_checkout_operation :
      (plan : Plan) (j : CheckoutJournal) (w x : World) (k : CheckoutJournal)
      → Planned m role plan j w
      → Retried m (end_of (transact m plan j w)) x
      → x.saved ≡ some k
      → Ends
          (λ u. Settled m role w.files k)
          (λ v. (k.status ≡ local_applied) × (v.files ≡ x.files))
          (recover_checkout_operation m true (restarted [] x))
  unfolding restarted
  transact-recover_checkout_operation plan j w x k planned tries saved =
      recover_checkout_operation-Settled w.files (restarted [] x) k
        (Retried-IsRecoverable w.files (end_of (transact m plan j w))
          (end-IsRecoverable w.files (transact m plan j w) (transact_lem plan j w planned)) tries)
        saved refl
