-- ===== src/Checkout/Sound.antt =====
-- When a journal of crates/sync-core/src/checkout.rs tells the truth about the files, and the rollback of an
-- operation that has not begun to write.
use codex_session_sync.Prelude.{
  Bool, List, [], ap, false, if_false, map, none, ok, refl, some, sym, true, ◌++◌, ◌∙◌, ◌∷◌, ◌≡◌,
  nat_eq, string_eq, option_eq, list_eq,
}
use codex_session_sync.Checkout.Rules.{consequence, exists_rule, bind_rule, give_rule, Triple}
use codex_session_sync.Checkout.Calls.{tried_either, frame_rule, touch_to, attempt_rule}
use codex_session_sync.Checkout.Undo.{Members}
use codex_session_sync.Checkout.Rollback.{
  swap_of, restore_databases, undo, put_back, preserve, roll_back_swap,
}
use codex_session_sync.Checkout.Rewound.{Members-directories, Members-files, Covers, site_of}
use codex_session_sync.Checkout.Layout.{is_private, apart, Agrees, Open, Elem, Site, Layout, Role}
use codex_session_sync.Checkout.Machine.{Machine}
use mathlib.Core.Option.{some-injective}
use codex_session_sync.Checkout.World.{set_file, remove, collect, World, Files}
use mathlib.Core.List.{reverse}
use codex_session_sync.Checkout.Journal.{
  local_write_started, CheckoutDirectorySwap, validate_checkout_journal, CheckoutJournal, FilePath,
  CheckoutStatus, preparing, backed_up, applying, validating, local_applied, completed, rolled_back,
  recovery_required,
}

-- The statuses in which the live files are those before the operation.
abbrev pub is_unchanged : CheckoutStatus → Bool
is_unchanged preparing = true
is_unchanged backed_up = true
is_unchanged applying = false
is_unchanged validating = false
is_unchanged local_applied = false
is_unchanged completed = false
is_unchanged rolled_back = true
is_unchanged recovery_required = false

pub started_not-unchanged :
    (s : CheckoutStatus) → is_unchanged s ≡ true → local_write_started s ≡ false
started_not-unchanged preparing e = refl
started_not-unchanged backed_up e = refl
started_not-unchanged applying e = cc
started_not-unchanged validating e = cc
started_not-unchanged local_applied e = cc
started_not-unchanged completed e = cc
started_not-unchanged rolled_back e = refl
started_not-unchanged recovery_required e = cc

module _ (m : Machine) (role : FilePath → Role) (before : Files) where
  pub record Sound (j : CheckoutJournal) (f : Files) : Type 0 where
    pub valid : validate_checkout_journal m.is_whitespace j ≡ ok tt
    pub layout : Layout (site_of role before j)
    pub covered : local_write_started j.status ≡ true → Covers role j.database_backups
    pub whole :
        local_write_started j.status ≡ true → Open (site_of role before j) j.database_backups f
    pub unchanged : is_unchanged j.status ≡ true → Agrees (site_of role before j) f

  -- Whatever journal is on the disk, it is sound.
  abbrev pub IsRecoverable : World → Type 0
  IsRecoverable w = (j : CheckoutJournal) → w.saved ≡ some j → Sound j w.files

  module _ (j : CheckoutJournal) (layout : Layout (site_of role before j)) where
    abbrev site : Site
    site = site_of role before j

    swept :
        (s : CheckoutDirectorySwap)
        → Elem s site.swaps
        → (f g : Files) → Agrees site f
        → g ≡ set_file s.staged none f
        → Agrees site g
    swept s mine f g h made p open_to =
        ap (λ (k : Files). k p) made
        ∙ (if_false _ _ (
              apart layout s.staged p
                (λ e. cc (open_to, ap is_private e, ap is_private (layout.staged_role s mine))))
            ∙ h p open_to)

    module _ {quiet : Bool} {r : World} where
      skip_rule :
          (s : CheckoutDirectorySwap)
          → Elem s site.swaps
          → Triple quiet r
              (Agrees site)
              (roll_back_swap false site.root s)
              (λ failures f. Agrees site f × (failures ≡ []))
              (Agrees site)
      unfolding roll_back_swap preserve put_back remove
      skip_rule s mine = bind_rule exists_rule (λ backup. bind_rule exists_rule (λ live.
          bind_rule {G = λ kept f. Agrees site f × (kept ≡ [])}
            (bind_rule exists_rule (λ there. give_rule [] (λ f h. (h.0.0.0, refl))))
            (λ kept.
              bind_rule {G = λ restored f. Agrees site f × (kept ++ restored ≡ [])}
                (bind_rule exists_rule (λ one.
                  bind_rule exists_rule (λ two. give_rule [] (λ f h. (h.0.0.0, rw h.0.0.1 refl)))))
                (λ restored.
                  consequence (λ f h. h) (λ a f h. h) (λ f h. h.0)
                    (bind_rule
                      (attempt_rule (
                        touch_to {G = λ f. Agrees site f × (kept ++ restored ≡ [])} (λ f h. h)
                          (λ f h q. refl)
                          (λ f g h e. (swept s mine f g h.0 (sym (some-injective _ _ e)), h.1))))
                      (λ ignored. give_rule (kept ++ restored) (λ f h.
                        tried_either quiet (λ f. Agrees site f × (kept ++ restored ≡ [])) ignored f
                          h)))))))

      skips_rule :
          (xs : List CheckoutDirectorySwap)
          → Members site xs
          → Triple quiet r
              (Agrees site)
              (collect (roll_back_swap false site.root) xs)
              (λ failures f. Agrees site f × (failures ≡ []))
              (Agrees site)
      unfolding collect
      skips_rule [] ms = give_rule [] (λ f h. (h, refl))
      skips_rule (s ∷ xs) (m, ms) = bind_rule (skip_rule s m) (λ here.
          bind_rule (frame_rule (skips_rule xs ms))
            (λ rest. give_rule (here ++ rest) (λ f h. (h.0.0, rw h.1 h.0.1))))

      -- Where nothing has been written yet, only what was staged is removed.
      pub skip_undo_rule :
          Triple quiet r
            (Agrees site)
            (undo false j)
            (λ failures f. Agrees site f × (failures ≡ []))
            (Agrees site)
      unfolding undo restore_databases
      skip_undo_rule =
          bind_rule
            (skips_rule (reverse (map swap_of j.file_swaps)) (Members-files role before j layout))
            (λ files.
              bind_rule
                (frame_rule (
                  skips_rule (reverse j.directory_swaps)
                    (Members-directories role before j layout)))
                (λ directories.
                  bind_rule
                    {G = λ databases f.
                      Agrees site f × (databases ≡ []) × (directories ≡ []) × (files ≡ [])}
                    (give_rule [] (λ f h. (h.0.0, refl, h.0.1, h.1)))
                    (λ databases.
                      give_rule ((files ++ directories) ++ databases)
                        (λ f h. (h.0, rw (h.1, h.2, h.3) refl)))))
