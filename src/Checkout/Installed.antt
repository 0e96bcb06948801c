-- ===== src/Checkout/Installed.antt =====
-- The writes of a checkout, crates/sync-core/src/checkout.rs: wherever one of them is broken off, what was
-- there before can be restored.
use codex_session_sync.Prelude.{
  ==_refl, All, Bool, List, Option, Result, Result-cases, String, [], ap, false, if_false, if_true,
  inl, inr, is_some, none, ok, refl, some, subst, sym, true, ◌∙◌, ◌∷◌, ◌≡◌, nat_eq, string_eq,
  option_eq, list_eq,
}
use codex_session_sync.Checkout.Undone.{absent, Restorable-away}
use codex_session_sync.Checkout.Apply.{apply_file_swap, apply_directory_swap, refuse_if}
use codex_session_sync.Checkout.Rules.{
  weaken, consequence, exists_rule, bind_rule, give_rule, Triple,
}
use codex_session_sync.Checkout.Calls.{pause_rule, absurd_rule, renamed_lem, touch_to}
use codex_session_sync.Checkout.Undo.{
  backup≢failed, live≢failed, Open-step, set_backup-Beside, set_live-Beside, set_staged-Beside,
  Beside-trans, staged≢failed, staged≢backup, live≢backup, backup≢live, Members, Aside,
}
use codex_session_sync.Checkout.Journal.{
  backup_path_exists, CheckoutDatabaseBackup, CheckoutError, CheckoutDirectorySwap,
}
use codex_session_sync.Checkout.World.{
  renamed, when, rename, give, Action, lift, Files, for_each, refuse, look, World,
}
use codex_session_sync.Checkout.Layout.{
  other_failed, other_live, other_backup, Beside, Open, Elem, failed_of, Layout, Site, Restorable,
  replaced, added,
}

-- A swap that is still to be applied.
pub record Pristine (site : Site) (f : Files) (s : CheckoutDirectorySwap) : Type 0 where
  pub fresh : f s.backup ≡ none
  pub same : f s.live ≡ site.before s.live
  pub free : f (failed_of site.root s.live) ≡ none

-- No live path is swapped twice.
abbrev pub Once : List CheckoutDirectorySwap → Type 0
Once [] = Unit
Once (s ∷ ss) = Aside s ss × Once ss

Restorable-over :
    (was live backup failed : Option String)
    → backup ≡ was
    → failed ≡ none
    → Restorable was live backup failed
Restorable-over none live backup failed b e = added refl b e
Restorable-over (some c) live backup failed b e = replaced refl b e

module _ {r : World} where
  pub refuse_rule :
      {A : Type 0} {F : Files → Type 0} {G : A → Files → Type 0} (e : CheckoutError)
      → Triple false r F (refuse e) G F
  unfolding refuse
  refuse_rule e = record {
    ends = λ w h. record {
      saved = h.saved;
      unsaved = h.unsaved;
      held = h.held;
      tracking = h.tracking;
      files = h.files;
      broken = λ q. cc;
    };
  }

  pub look_rule :
      {A : Type 0} {F : Files → Type 0} (read : Files → Result CheckoutError A)
      → Triple false r F (look read) (λ a f. F f × (read f ≡ ok a)) F
  unfolding look lift give refuse
  look_rule read = record {
    ends = λ w h. elim (Result-cases (read w.files)) [
      | inl (a, e) ↦ rw e (record {
        saved = h.saved;
        unsaved = h.unsaved;
        held = h.held;
        tracking = h.tracking;
        files = (h.files, e);
        calm = h.calm;
      })
      | inr (x, e) ↦ rw e (record {
        saved = h.saved;
        unsaved = h.unsaved;
        held = h.held;
        tracking = h.tracking;
        files = h.files;
        broken = λ q. cc;
      })
    ];
  }

  -- A fact that is not about the files, taken out.
  pub known_rule :
      {A : Type 0} {C : Type 0} {F H : Files → Type 0} {G : A → Files → Type 0} {m : Action A}
      → (C → Triple false r F m G H)
      → Triple false r (λ f. F f × C) m G H
  known_rule t = record { ends = λ w h. (t h.files.1).ends w (weaken (λ f x. x.0) h) }

  pub each_rule :
      {A : Type 0} {F : Files → Type 0} (Ok : A → Type 0) (body : A → Action (Unit {0}))
      → ((a : A) → Ok a → Triple false r F (body a) (λ u. F) F)
      → (xs : List A) → All Ok xs
      → Triple false r F (for_each body xs) (λ u. F) F
  unfolding for_each
  each_rule Ok body h [] m = give_rule tt (λ f x. x)
  each_rule Ok body h (x ∷ xs) (m, ms) = bind_rule (h x m) (λ u. each_rule Ok body h xs ms)

module _ {site : Site} (layout : Layout site) (backups : List CheckoutDatabaseBackup) where
  -- Before the swaps `ss` are applied.
  abbrev pub Awaiting : List CheckoutDirectorySwap → Files → Type 0
  Awaiting ss f = Open site backups f × All (Pristine site f) ss

  module _ (s : CheckoutDirectorySwap) (mine : Elem s site.swaps) (ss : List CheckoutDirectorySwap)
      (members : Members site ss) (aside : Aside s ss) where
    Pristine-step :
        {f g : Files}
        → Beside site s f g
        → (xs : List CheckoutDirectorySwap) → Members site xs
        → Aside s xs
        → All (Pristine site f) xs
        → All (Pristine site g) xs
    Pristine-step same [] m a h = tt
    Pristine-step same (x ∷ xs) (m, ms) (a, as') (h, hs) = (
      record {
        fresh = other_backup layout mine same x m a ∙ h.fresh;
        same = other_live layout mine same x m a ∙ h.same;
        free = other_failed layout mine same x m a ∙ h.free;
      },
      Pristine-step same xs ms as' hs,
    )

    -- The live path is empty, and what was there is at the backup.
    record Cleared (f : Files) : Type 0 where
      awaiting : Awaiting ss f
      gone : f s.live ≡ none
      held : f s.backup ≡ site.before s.live
      free : f (failed_of site.root s.live) ≡ none

    cleared : (f g : Files) → Awaiting (s ∷ ss) f → renamed s.live s.backup f ≡ some g → Cleared g
    cleared f g h e =
        let p = h.1.0 in
        let (c, found, made) = renamed_lem s.live s.backup f g e in
        let gone : g s.live ≡ none =
          ap (λ (k : Files). k s.live) made
          ∙ (if_false _ _ (backup≢live layout s mine) ∙ if_true _ _ (==_refl s.live)) in
        let held : g s.backup ≡ site.before s.live =
          ap (λ (k : Files). k s.backup) made
          ∙ (if_true _ _ (==_refl s.backup) ∙ (sym found ∙ p.same)) in
        let free : g (failed_of site.root s.live) ≡ none =
          ap (λ (k : Files). k (failed_of site.root s.live)) made
          ∙ (if_false _ _ (backup≢failed layout s mine)
              ∙ (if_false _ _ (live≢failed layout s mine) ∙ p.free)) in
        let same : Beside site s f g =
          subst (λ k. Beside site s f k) (sym made)
            (Beside-trans (set_live-Beside none) (set_backup-Beside (some c))) in
        record {
          awaiting = (
            Open-step layout mine same h.0 (Restorable-away _ _ _ _ held gone),
            Pristine-step same ss members aside h.1.1,
          );
          gone = gone;
          held = held;
          free = free;
        }

    Cleared-already : (f : Files) → Awaiting (s ∷ ss) f → is_some (f s.live) ≡ false → Cleared f
    Cleared-already f h e =
        let p = h.1.0 in
        let gone : f s.live ≡ none = absent (f s.live) e in
        record {
          awaiting = (h.0, h.1.1);
          gone = gone;
          held = p.fresh ∙ (sym gone ∙ p.same);
          free = p.free;
        }

    installed : (f g : Files) → Cleared f → renamed s.staged s.live f ≡ some g → Awaiting ss g
    installed f g h e =
        let (c, found, made) = renamed_lem s.staged s.live f g e in
        let held : g s.backup ≡ site.before s.live =
          ap (λ (k : Files). k s.backup) made
          ∙ (if_false _ _ (live≢backup layout s mine)
              ∙ (if_false _ _ (staged≢backup layout s mine) ∙ h.held)) in
        let free : g (failed_of site.root s.live) ≡ none =
          ap (λ (k : Files). k (failed_of site.root s.live)) made
          ∙ (if_false _ _ (live≢failed layout s mine)
              ∙ (if_false _ _ (staged≢failed layout s mine) ∙ h.free)) in
        let same : Beside site s f g =
          subst (λ k. Beside site s f k) (sym made)
            (Beside-trans (set_staged-Beside none) (set_live-Beside (some c))) in
        (
          Open-step layout mine same h.awaiting.0 (Restorable-over _ _ _ _ held free),
          Pristine-step same ss members aside h.awaiting.1,
        )

    module _ {r : World} where
      clear_rule :
          (live : Bool)
          → Triple false r
              (λ f. Awaiting (s ∷ ss) f × (is_some (f s.live) ≡ live))
              (when live (rename s.live s.backup))
              (λ u. Cleared)
              (Open site backups)
      unfolding when rename give
      clear_rule true = touch_to (λ f h. h.0.0) (λ f h q. cc) (λ f g h e. cleared f g h.0 e)
      clear_rule false = give_rule tt (λ f h. Cleared-already f h.0 h.1)

      install_rule :
          Triple false r Cleared (rename s.staged s.live) (λ u. Awaiting ss) (Open site backups)
      unfolding rename
      install_rule = touch_to (λ f h. h.awaiting.0) (λ f h q. cc) installed

      unrefused :
          (backup : Bool)
          → Triple false r
              (λ f. Awaiting (s ∷ ss) f × (is_some (f s.backup) ≡ backup))
              (refuse_if backup (backup_path_exists s.backup))
              (λ u. Awaiting (s ∷ ss))
              (Open site backups)
      unfolding refuse_if give refuse
      unrefused true = absurd_rule (λ f h. cc (h.1, h.0.1.0.fresh))
      unrefused false = give_rule tt (λ f h. h.0)

      pub apply_directory_swap_rule :
          Triple false r
            (Awaiting (s ∷ ss))
            (apply_directory_swap s)
            (λ u. Awaiting ss)
            (Open site backups)
      unfolding apply_directory_swap
      apply_directory_swap_rule = bind_rule exists_rule (λ backup.
          bind_rule (unrefused backup)
            (λ u. bind_rule exists_rule (λ live. bind_rule (clear_rule live) (λ v. install_rule))))

      pub apply_file_swap_rule :
          (hash : String)
          → Triple false r
              (Awaiting (s ∷ ss))
              (apply_file_swap (record { swap = s; expected_sha256 = hash }))
              (λ u. Awaiting ss)
              (Open site backups)
      unfolding apply_file_swap
      apply_file_swap_rule hash = bind_rule exists_rule (λ backup.
          bind_rule (unrefused backup) (λ u.
            bind_rule (consequence (λ f h. h) (λ a f h. h) (λ f h. h.0) pause_rule) (λ p.
              bind_rule exists_rule (λ live. bind_rule (clear_rule live) (λ v. install_rule)))))
