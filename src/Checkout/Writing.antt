-- ===== src/Checkout/Writing.antt =====
-- The closure `result` of crates/sync-core/src/checkout.rs, from the staging of the rollouts to the change
-- of the tracking database: from each point a rollback leaves a sound journal.
use codex_session_sync.Prelude.{
  All, List, Result, [], false, map, refl, some, subst, sym, ℕ, ◌++◌, ◌≡◌, nat_eq, string_eq,
  option_eq, list_eq,
}
use codex_session_sync.Checkout.Applied.{apply_rule}
use codex_session_sync.Checkout.Rollback.{swap_of}
use codex_session_sync.Checkout.Late.{members, advance-Late, Poised, Late-at, Late-step, begin_goes}
use codex_session_sync.Checkout.Idle.{staged_set}
use codex_session_sync.Checkout.Rewound.{site_of, Elem-append_right, All-of_Elem, swaps_of}
use codex_session_sync.Checkout.Installed.{Awaiting, each_rule, look_rule}
use codex_session_sync.Checkout.Early.{advance_early, back_up_databases_goes, early_step}
use codex_session_sync.Checkout.Recovered.{apply_tracking_update-Same, Same}
use codex_session_sync.Checkout.Apply.{
  validate_file_swaps, validate_checkout_result, apply_tracking_update,
}
use codex_session_sync.Checkout.Rules.{bind_rule, consequence, Triple}
use codex_session_sync.Checkout.Calls.{touch_to, pause_rule}
use codex_session_sync.Checkout.Journaling.{goes_of, loosen, held_goes, sequence, Goes}
use codex_session_sync.Checkout.Phases.{here, Late-Revertible, Revertible, Early, Late}
use codex_session_sync.Checkout.Databases.{add_catalogs}
use codex_session_sync.Checkout.Transact.{
  apply, stage_rollouts, back_up, write_local, check_applied, Plan,
}
use codex_session_sync.Checkout.Layout.{Open, Elem, database, saved_path, Role}
use codex_session_sync.Checkout.Machine.{Machine}
use codex_session_sync.Checkout.World.{create, look, World, Files}
use codex_session_sync.Checkout.Journal.{
  CheckoutError, CheckoutJournal, FilePath, validating, local_applied, backed_up,
}
use mathlib.Core.Option.{some-injective}

module _ (m : Machine) (role : FilePath → Role) (before : Files) (plan : Plan) where
  module _ (databases : All (λ p. role p ≡ database) plan.databases)
      (catalogs : All (λ p. role p ≡ database) plan.catalogs) where
    apply_goes :
        (w : World)
        → Poised m role before w.held w.saved w.files
        → Goes
            (apply m plan w.held)
            w
            (λ (u : Unit {0}) v. Late m role before v.held v.saved v.files)
            (Revertible m role before)
    apply_goes w h =
        loosen (λ u v k. Late-at m role before v h.late k.held k.saved k.files)
          (λ v k.
            Late-Revertible m role before v (Late-at m role before v h.late k.held k.saved k.files))
          (goes_of
            (apply_rule h.late.now.layout w.held.database_backups m plan w.held
              (members m role before w.held) h.once databases catalogs)
            w
            (here m role before
              {F = Awaiting h.late.now.layout w.held.database_backups
                (w.held.directory_swaps ++ map swap_of w.held.file_swaps)}
              w (h.late.open_to, h.pristine)))

  looked :
      {r : World} {F : Files → Type 0} (read : Files → Result CheckoutError (Unit {0}))
      → Triple false r F (look read) (λ u. F) F
  looked read = consequence (λ f h. h) (λ u f h. h.0) (λ f h. h) (look_rule read)

  check_goes :
      (j : CheckoutJournal) (w : World)
      → Late m role before w.held w.saved w.files
      → Goes
          (check_applied m plan j)
          w
          (λ (u : Unit {0}) v. Late m role before v.held v.saved v.files)
          (Revertible m role before)
  unfolding check_applied
  check_goes j w h = Late-step m role before w h (
      bind_rule pause_rule (λ a.
        bind_rule (looked (validate_checkout_result m j.target_codex_home plan.thread_hashes))
          (λ b. bind_rule pause_rule (λ c. looked (validate_file_swaps m j.file_swaps)))))

  track_goes :
      (j : CheckoutJournal) (w : World)
      → Late m role before w.held w.saved w.files
      → Goes
          (apply_tracking_update m j)
          w
          (λ (u : Unit {0}) v. Late m role before v.held v.saved v.files)
          (Revertible m role before)
  track_goes j w h =
      loosen (λ u v k. same v k) (λ v k. Late-Revertible m role before v (same v k))
        (apply_tracking_update-Same m {quiet = false} j (λ q. cc))
    where
      same : (v : World) → Same false w v → Late m role before v.held v.saved v.files
      same v k = Late-at m role before v h k.held k.saved (
          subst (Open (site_of role before w.held) w.held.database_backups) (sym k.files) h.open_to)

  module _ (place : (i : ℕ) → role (plan.place i) ≡ saved_path i)
      (listed : All (λ p. role p ≡ database) (add_catalogs plan.databases plan.catalogs)) where
    stage_goes :
        (n : ℕ) (rest : List FilePath) (w : World)
        → Early m role before n rest w.held w.saved w.files
        → Goes
            (stage_rollouts m plan w.held.directory_swaps)
            w
            (λ (u : Unit {0}) v. Early m role before n rest v.held v.saved v.files)
            (Revertible m role before)
    unfolding stage_rollouts create
    stage_goes n rest w h = early_step m role before n rest w h (
        each_rule (λ s. Elem s (swaps_of w.held)) _
          (λ s mine.
            touch_to (λ f x. x) (λ f x q. cc)
              (λ f g x e.
                staged_set h.now.layout s mine (some (plan.tree s.staged)) f g x
                  (sym (some-injective _ _ e))))
          w.held.directory_swaps
          (All-of_Elem _ w.held.directory_swaps
            (λ s x. Elem-append_right s (map swap_of w.held.file_swaps) w.held.directory_swaps x)))

    back_up_goes :
        (w : World)
        → Early m role before 0 (add_catalogs plan.databases plan.catalogs) w.held w.saved w.files
        → Goes
            (back_up m plan)
            w
            (λ (u : Unit {0}) v. (k : ℕ) × Early m role before k [] v.held v.saved v.files)
            (Revertible m role before)
    unfolding back_up
    back_up_goes w h =
        let ps = add_catalogs plan.databases plan.catalogs in
        held_goes _ refl (
          sequence (stage_goes 0 ps w h) (λ a v hv.
            sequence (early_step m role before 0 ps v hv pause_rule) (λ b x hx.
              sequence (early_step m role before 0 ps x hx pause_rule) (λ c y hy.
                sequence (back_up_databases_goes m role before plan.place place ps 0 y listed hy)
                  (λ d z (k, hz).
                    sequence (advance_early m role before k [] backed_up z refl hz) (λ e t ht.
                      loosen (λ u s hs. (k, hs)) (λ s hs. hs)
                        (early_step m role before k [] t ht pause_rule)))))))

    pub write_local_goes :
        (w : World)
        → All (λ p. role p ≡ database) plan.databases
        → All (λ p. role p ≡ database) plan.catalogs
        → Early m role before 0 (add_catalogs plan.databases plan.catalogs) w.held w.saved w.files
        → Goes
            (write_local m plan)
            w
            (λ (u : Unit {0}) v. Late m role before v.held v.saved v.files)
            (Revertible m role before)
    unfolding write_local
    write_local_goes w databases catalogs h = sequence (back_up_goes w h) (λ a v (k, hv).
        sequence (begin_goes m role before k v hv) (λ b x hx. held_goes _ refl (
          sequence (apply_goes databases catalogs x hx) (λ c y hy.
            sequence (advance-Late m role before validating y refl hy) (λ d z hz. held_goes _ refl (
              sequence (check_goes z.held z hz) (λ e s hs.
                sequence (advance-Late m role before local_applied s refl hs)
                  (λ f t ht. held_goes _ refl (track_goes t.held t ht)))))))))
