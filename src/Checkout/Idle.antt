-- ===== src/Checkout/Idle.antt =====
-- The rollback of crates/sync-core/src/checkout.rs where the process had begun to write in its own view, but
-- no live path has been touched: it leaves the files as they are.
use codex_session_sync.Prelude.{
  ==→eq, All, Bool, List, Option, Result, String, [], ap, ap₂, arith, err, false, if_false, if_rule,
  is_some, map, none, not, ok, refl, some, subst, sym, true, ◌&&◌, ◌++◌, ◌==◌, ◌||◌, ◌∙◌, ◌∷◌, ◌≡◌,
  nat_eq, string_eq, option_eq, list_eq,
}
use codex_session_sync.Checkout.Rewound.{Members-directories, Members-files, All-of_Elem, site_of}
use codex_session_sync.Checkout.Rolled.{copied_there, copied_lem, Saved-at}
use codex_session_sync.Checkout.Rules.{consequence, exists_rule, give_rule, bind_rule, Triple}
use codex_session_sync.Checkout.Calls.{
  Tried, tried_either, touch_to, attempt_rule, frame_rule, absurd_rule,
}
use codex_session_sync.Checkout.Undo.{Saved-same, Members, is_aside}
use codex_session_sync.Checkout.Rollback.{
  swap_of, restore_databases, undo, report_unless, restore_database, preserve, put_back,
  roll_back_swap,
}
use codex_session_sync.Checkout.Journal.{
  database_not_restored, CheckoutJournal, CheckoutError, Failure, FilePath, CheckoutDirectorySwap,
  CheckoutDatabaseBackup,
}
use codex_session_sync.Checkout.Layout.{
  Role, apart, Saved, is_private, untouched, failed_of, Agrees, Open, Elem, Layout, Site,
}
use mathlib.Core.Option.{some-injective}
use codex_session_sync.Checkout.World.{give, copy, copied, remove, set_file, collect, World, Files}
use mathlib.Core.List.{reverse}

-- Nothing has been touched yet, and the backups made so far are whole.
pub record Idle (site : Site) (backups : List CheckoutDatabaseBackup) (f : Files) : Type 0 where
  pub agrees : Agrees site f
  pub fresh : (s : CheckoutDirectorySwap) → Elem s site.swaps → f s.backup ≡ none
  pub free : (s : CheckoutDirectorySwap) → Elem s site.swaps → f (failed_of site.root s.live) ≡ none
  pub saved : All (Saved site f) backups

pub live_agrees :
    {site : Site} (layout : Layout site) (f : Files)
    → Agrees site f
    → (s : CheckoutDirectorySwap) → Elem s site.swaps
    → f s.live ≡ site.before s.live
live_agrees layout f h s m = h s.live (ap is_private (layout.live_role s m))

swap_started_false :
    (started existed : Bool) (was live backup : Option String)
    → existed ≡ is_some was
    → live ≡ was
    → backup ≡ none
    → (started && (is_some backup || (not existed && is_some live))) ≡ false
swap_started_false started existed was live backup e l b = ground arith

module _ {site : Site} (layout : Layout site) {backups : List CheckoutDatabaseBackup} where
  -- What has not been touched can be undone.
  pub Idle-Open : (f : Files) → Idle site backups f → Open site backups f
  Idle-Open f i = record {
    restorable = λ s m. untouched (i.fresh s m) (live_agrees layout f i.agrees s m);
    saved = i.saved;
    rest = λ p e. i.agrees p (ap is_private e);
  }

  -- A change of staged entries or databases that agrees with the files of before.
  pub Idle-same :
      (f g : Files)
      → ((p : FilePath) → is_aside (site.role p) ≡ false → g p ≡ f p)
      → Agrees site g
      → Idle site backups f
      → Idle site backups g
  Idle-same f g same agrees i = record {
    agrees = agrees;
    fresh = λ s m. same s.backup (ap is_aside (layout.backup_role s m)) ∙ i.fresh s m;
    free = λ s m.
        same (failed_of site.root s.live) (ap is_aside (layout.failed_role s m)) ∙ i.free s m;
    saved = Saved-same layout f g same backups i.saved;
  }

  -- A staged entry written or removed.
  pub staged_set :
      (s : CheckoutDirectorySwap)
      → Elem s site.swaps
      → (v : Option String) (f g : Files) → Idle site backups f
      → g ≡ set_file s.staged v f
      → Idle site backups g
  staged_set s mine v f g i made =
      Idle-same f g
        (λ p a.
          ap (λ (k : Files). k p) made
          ∙ if_false _ _ (
              apart layout s.staged p
                (λ e. cc (a, ap is_aside e, ap is_aside (layout.staged_role s mine)))))
        (λ p a.
          ap (λ (k : Files). k p) made
          ∙ (if_false _ _ (
                apart layout s.staged p
                  (λ e. cc (a, ap is_private e, ap is_private (layout.staged_role s mine))))
              ∙ i.agrees p a))
        i

  restored-Idle :
      (b : CheckoutDatabaseBackup)
      → Elem b backups
      → (f g : Files) → Idle site backups f
      → copied b.backup b.target f ≡ some g
      → Idle site backups g
  restored-Idle b m f g i made =
      let s = Saved-at b backups m i.saved in
      let (c, found, e) = copied_lem b.backup b.target f g made in
      Idle-same f g
        (λ p a.
          ap (λ (k : Files). k p) e
          ∙ if_false _ _
              (apart layout b.target p (λ x. cc (a, ap is_aside x, ap is_aside s.of_database))))
        (λ p a.
          ap (λ (k : Files). k p) e
          ∙ if_rule (λ (x : Option String). x ≡ site.before p) (b.target == p) (some c) (f p)
              (λ y. sym found ∙ (s.same ∙ ap site.before (==→eq y))) (λ n. i.agrees p a))
        i

  module _ {quiet : Bool} {r : World} where
    preserve-Idle :
        (begun : Bool) (live : FilePath)
        → Triple quiet r
            (λ f. Idle site backups f × (begun ≡ false))
            (preserve begun site.root live)
            (λ kept f. (Idle site backups f × (begun ≡ false)) × (kept ≡ []))
            (Idle site backups)
    unfolding preserve
    preserve-Idle true live = absurd_rule (λ f h. cc (h.1))
    preserve-Idle false live = bind_rule exists_rule (λ there. give_rule [] (λ f h. (h.0, refl)))

    put_back-Idle :
        (begun : Bool) (s : CheckoutDirectorySwap) (kept : List Failure)
        → Triple quiet r
            (λ f. (Idle site backups f × (begun ≡ false)) × (kept ≡ []))
            (put_back begun s)
            (λ restored f. Idle site backups f × (kept ++ restored ≡ []))
            (Idle site backups)
    unfolding put_back
    put_back-Idle true s kept = absurd_rule (λ f h. cc (h.0.1))
    put_back-Idle false s kept =
        bind_rule exists_rule
          (λ one. bind_rule exists_rule (λ two. give_rule [] (λ f h. (h.0.0.0.0, rw h.0.0.1 refl))))

    Idle-rule :
        (started : Bool) (s : CheckoutDirectorySwap)
        → Elem s site.swaps
        → Triple quiet r
            (Idle site backups)
            (roll_back_swap started site.root s)
            (λ failures f. Idle site backups f × (failures ≡ []))
            (Idle site backups)
    unfolding roll_back_swap remove
    Idle-rule started s mine = bind_rule exists_rule (λ backup. bind_rule exists_rule (λ live.
        bind_rule
          (consequence
            (λ f h. (
              h.0.0,
              subst (λ b. (started && b) ≡ false)
                  (ap₂ (λ a b. a || (not s.original_existed && b)) h.0.1 h.1)
                  (swap_started_false started s.original_existed (site.before s.live) (f s.live)
                    (f s.backup) (layout.existed s mine) (live_agrees layout f h.0.0.agrees s mine)
                    (h.0.0.fresh s mine)),
            ))
            (λ a f h. h) (λ f h. h)
            (preserve-Idle (started && (backup || (not s.original_existed && live))) s.live))
          (λ kept.
            bind_rule
              (put_back-Idle (started && (backup || (not s.original_existed && live))) s kept)
              (λ restored.
                consequence (λ f h. h) (λ a f h. h) (λ f h. h.0)
                  (bind_rule
                    (attempt_rule (
                      touch_to {G = λ f. Idle site backups f × (kept ++ restored ≡ [])} (λ f h. h)
                        (λ f h q. refl)
                        (λ f g h e.
                          (staged_set s mine none f g h.0 (sym (some-injective _ _ e)), h.1))))
                    (λ ignored. give_rule (kept ++ restored) (λ f h.
                      tried_either quiet (λ f. Idle site backups f × (kept ++ restored ≡ []))
                        ignored f h)))))))

    idles_rule :
        (started : Bool) (xs : List CheckoutDirectorySwap)
        → Members site xs
        → Triple quiet r
            (Idle site backups)
            (collect (roll_back_swap started site.root) xs)
            (λ failures f. Idle site backups f × (failures ≡ []))
            (Idle site backups)
    unfolding collect
    idles_rule started [] ms = give_rule [] (λ f h. (h, refl))
    idles_rule started (s ∷ xs) (m, ms) = bind_rule (Idle-rule started s m) (λ here.
        bind_rule (frame_rule (idles_rule started xs ms))
          (λ rest. give_rule (here ++ rest) (λ f h. (h.0.0, rw h.1 h.0.1))))

    settled-Idle :
        (b : CheckoutDatabaseBackup) {H : Files → Type 0} (x : Result CheckoutError (Unit {0}))
        → Triple quiet r
            (Tried quiet (λ _. Idle site backups) (Idle site backups) x)
            (give (report_unless x (database_not_restored b.target)))
            (λ failures f. Idle site backups f × (quiet ≡ true → failures ≡ []))
            H
    unfolding report_unless
    settled-Idle b (ok u) = give_rule [] (λ f h. (h, λ q. refl))
    settled-Idle b (err e) =
        give_rule (database_not_restored b.target ∷ []) (λ f h. (h.0, λ q. absurd (h.1 q)))

    restores-Idle :
        (bs : List CheckoutDatabaseBackup)
        → All (λ b. Elem b backups) bs
        → Triple quiet r
            (Idle site backups)
            (collect restore_database bs)
            (λ failures f. Idle site backups f × (quiet ≡ true → failures ≡ []))
            (Idle site backups)
    unfolding collect restore_database copy
    restores-Idle [] ms = give_rule [] (λ f h. (h, λ q. refl))
    restores-Idle (b ∷ bs) (m, ms) =
        bind_rule
          (bind_rule
            (attempt_rule (
              touch_to {G = Idle site backups} (λ f h. h)
                (λ f h q.
                  copied_there b.backup b.target f
                    (let s = Saved-at b backups m h.saved in ap is_some s.same ∙ s.there))
                (λ f g h e. restored-Idle b m f g h e)))
            (settled-Idle b))
          (λ here.
            bind_rule (frame_rule (restores-Idle bs ms))
              (λ rest. give_rule (here ++ rest) (λ f h. (h.0.0, λ q. rw (h.1 q, h.0.1 q) refl))))

module _ (role : FilePath → Role) (before : Files) (j : CheckoutJournal)
    (layout : Layout (site_of role before j)) {quiet : Bool} {r : World} where
  restore_all-Idle :
      (started : Bool)
      → Triple quiet r
          (Idle (site_of role before j) j.database_backups)
          (restore_databases started j.database_backups)
          (λ failures f.
            Idle (site_of role before j) j.database_backups f × (quiet ≡ true → failures ≡ []))
          (Idle (site_of role before j) j.database_backups)
  unfolding restore_databases
  restore_all-Idle true =
      restores-Idle layout j.database_backups (All-of_Elem _ j.database_backups (λ b m. m))
  restore_all-Idle false = give_rule [] (λ f h. (h, λ q. refl))

  -- Nothing that was not touched is touched by the loops.
  pub Idle-undo_rule :
      (started : Bool)
      → Triple quiet r
          (Idle (site_of role before j) j.database_backups)
          (undo started j)
          (λ failures f.
            Idle (site_of role before j) j.database_backups f × (quiet ≡ true → failures ≡ []))
          (Idle (site_of role before j) j.database_backups)
  unfolding undo
  Idle-undo_rule started =
      bind_rule
        (idles_rule layout started (reverse (map swap_of j.file_swaps))
          (Members-files role before j layout))
        (λ files.
          bind_rule
            (frame_rule (
              idles_rule layout started (reverse j.directory_swaps)
                (Members-directories role before j layout)))
            (λ directories.
              bind_rule
                (consequence (λ f h. (h.0.0, (h.0.1, h.1))) (λ a f h. h) (λ f h. h)
                  (frame_rule {C = (directories ≡ []) × (files ≡ [])} (restore_all-Idle started)))
                (λ databases.
                  give_rule ((files ++ directories) ++ databases)
                    (λ f h. (h.0.0, λ q. rw (h.1.0, h.1.1, h.0.1 q) refl)))))
