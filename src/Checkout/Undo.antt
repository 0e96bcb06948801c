-- ===== src/Checkout/Undo.antt =====
-- One change of the files by the rollback of crates/sync-core/src/checkout.rs: what of the old content is
-- still held after it.
use codex_session_sync.Prelude.{
  ==_false_sym, ==→eq, ==→ne, All, Bool, Bool-cases, List, Option, String, [], ap, false, if_false,
  inl, inr, subst, true, ◌==◌, ◌∙◌, ◌∷◌, ◌≡◌, nat_eq, string_eq, option_eq, list_eq,
}
use codex_session_sync.Checkout.Layout.{
  Role, live_path, database, elsewhere, staged_path, backup_path, failed_path, saved_path,
}
use codex_session_sync.Checkout.World.{set_file, Files}
use codex_session_sync.Checkout.Journal.{FilePath, CheckoutDatabaseBackup, CheckoutDirectorySwap}
use codex_session_sync.Checkout.Layout.{
  staged_path, apart, other_failed, other_live, failed_of, other_backup, other_role, IsRestorable,
  Saved, Back, Open, Beside, Layout, Elem, Site,
}

-- Other swaps than `t`.
abbrev pub Aside : CheckoutDirectorySwap → List CheckoutDirectorySwap → Type 0
Aside t xs = All (λ s. ¬ (t.live ≡ s.live)) xs

abbrev pub Members : Site → List CheckoutDirectorySwap → Type 0
Members site xs = All (λ s. Elem s site.swaps) xs

-- Everything can be undone, and the swaps `xs` have been.
pub record Undoing (site : Site) (backups : List CheckoutDatabaseBackup)
    (xs : List CheckoutDirectorySwap) (f : Files) : Type 0 where
  pub whole : Open site backups f
  pub undone : All (Back site f) xs

module _ {site : Site} {t : CheckoutDirectorySwap} {f : Files} where
  pub set_live-Beside : (v : Option String) → Beside site t f (set_file t.live v f)
  set_live-Beside v = record { beside = λ p a b c d. if_false _ _ a }

  pub set_staged-Beside : (v : Option String) → Beside site t f (set_file t.staged v f)
  set_staged-Beside v = record { beside = λ p a b c d. if_false _ _ b }

  pub set_backup-Beside : (v : Option String) → Beside site t f (set_file t.backup v f)
  set_backup-Beside v = record { beside = λ p a b c d. if_false _ _ c }

  pub set_failed-Beside :
      (v : Option String) → Beside site t f (set_file (failed_of site.root t.live) v f)
  set_failed-Beside v = record { beside = λ p a b c d. if_false _ _ d }

pub Beside-trans :
    {site : Site} {t : CheckoutDirectorySwap} {f g h : Files}
    → Beside site t f g
    → Beside site t g h
    → Beside site t f h
Beside-trans x y = record { beside = λ p a b c d. y.beside p a b c d ∙ x.beside p a b c d }

module _ {site : Site} (layout : Layout site) {t : CheckoutDirectorySwap} (mine : Elem t site.swaps)
    {f g : Files} (same : Beside site t f g) where
  Saved-step : (bs : List CheckoutDatabaseBackup) → All (Saved site f) bs → All (Saved site g) bs
  Saved-step [] h = tt
  Saved-step (b ∷ bs) (x, xs) = (
    record {
      there = x.there;
      same =
          other_role layout mine same b.backup (λ e. cc (x.at_index, e)) (λ e. cc (x.at_index, e))
            (λ e. cc (x.at_index, e)) (λ e. cc (x.at_index, e))
          ∙ x.same;
      of_database = x.of_database;
      index = x.index;
      at_index = x.at_index;
    },
    Saved-step bs xs,
  )

  -- A change at the paths of one swap that leaves this swap restorable.
  pub Open-step :
      {backups : List CheckoutDatabaseBackup}
      → Open site backups f
      → IsRestorable site g t
      → Open site backups g
  Open-step {backups} o mended = record {
    restorable = λ s hers. elim (Bool-cases (t.live == s.live)) [
      | inl e ↦ subst (λ u. IsRestorable site g u) (layout.once t s mine hers (==→eq e)) mended
      | inr n ↦
          rw
            (
              other_live layout mine same s hers (==→ne _ _ n),
              other_backup layout mine same s hers (==→ne _ _ n),
              other_failed layout mine same s hers (==→ne _ _ n),
            )
            (o.restorable s hers)
    ];
    saved = Saved-step backups o.saved;
    rest = λ p e.
        other_role layout mine same p (λ x. cc (e, x)) (λ x. cc (e, x)) (λ x. cc (e, x))
          (λ x. cc (e, x))
        ∙ o.rest p e;
  }

  pub Back-step :
      (xs : List CheckoutDirectorySwap)
      → Members site xs
      → Aside t xs
      → All (Back site f) xs
      → All (Back site g) xs
  Back-step [] m a h = tt
  Back-step (s ∷ xs) (m, ms) (a, as') (h, hs) = (
    record {
      cleared = other_backup layout mine same s m a ∙ h.cleared;
      back = other_live layout mine same s m a ∙ h.back;
    },
    Back-step xs ms as' hs,
  )

-- The four paths of a swap are four.
module _ {site : Site} (layout : Layout site) (t : CheckoutDirectorySwap)
    (mine : Elem t site.swaps) where
  pub live≢backup : (t.live == t.backup) ≡ false
  live≢backup =
      apart layout t.live t.backup (λ e. cc (e, layout.live_role t mine, layout.backup_role t mine))

  pub backup≢live : (t.backup == t.live) ≡ false
  backup≢live = ==_false_sym t.live t.backup live≢backup

  pub failed≢live : (failed_of site.root t.live == t.live) ≡ false
  failed≢live =
      apart layout (failed_of site.root t.live) t.live
        (λ e. cc (e, layout.live_role t mine, layout.failed_role t mine))

  pub failed≢backup : (failed_of site.root t.live == t.backup) ≡ false
  failed≢backup =
      apart layout (failed_of site.root t.live) t.backup
        (λ e. cc (e, layout.backup_role t mine, layout.failed_role t mine))

  pub staged≢live : (t.staged == t.live) ≡ false
  staged≢live =
      apart layout t.staged t.live (λ e. cc (e, layout.live_role t mine, layout.staged_role t mine))

  pub live≢staged : (t.live == t.staged) ≡ false
  live≢staged = ==_false_sym t.staged t.live staged≢live

  pub staged≢backup : (t.staged == t.backup) ≡ false
  staged≢backup =
      apart layout t.staged t.backup
        (λ e. cc (e, layout.backup_role t mine, layout.staged_role t mine))

  pub staged≢failed : (t.staged == failed_of site.root t.live) ≡ false
  staged≢failed =
      apart layout t.staged (failed_of site.root t.live)
        (λ e. cc (e, layout.failed_role t mine, layout.staged_role t mine))

  pub backup≢failed : (t.backup == failed_of site.root t.live) ≡ false
  backup≢failed = ==_false_sym (failed_of site.root t.live) t.backup failed≢backup

  pub live≢failed : (t.live == failed_of site.root t.live) ≡ false
  live≢failed = ==_false_sym (failed_of site.root t.live) t.live failed≢live

-- Staged entries and databases are no part of what can be undone.
abbrev pub is_aside : Role → Bool
is_aside live_path = false
is_aside database = true
is_aside elsewhere = false
is_aside (staged_path p) = true
is_aside (backup_path p) = false
is_aside (failed_path p) = false
is_aside (saved_path n) = false

module _ {site : Site} (layout : Layout site) (f g : Files)
    (same : (p : FilePath) → is_aside (site.role p) ≡ false → g p ≡ f p) where
  pub Back-same_at : (s : CheckoutDirectorySwap) → Elem s site.swaps → Back site f s → Back site g s
  Back-same_at s m h = record {
    cleared = same s.backup (ap is_aside (layout.backup_role s m)) ∙ h.cleared;
    back = same s.live (ap is_aside (layout.live_role s m)) ∙ h.back;
  }

  pub Back-same :
      (xs : List CheckoutDirectorySwap)
      → Members site xs
      → All (Back site f) xs
      → All (Back site g) xs
  Back-same [] m h = tt
  Back-same (s ∷ xs) (m, ms) (h, hs) = (Back-same_at s m h, Back-same xs ms hs)

  pub Saved-same :
      (bs : List CheckoutDatabaseBackup) → All (Saved site f) bs → All (Saved site g) bs
  Saved-same [] h = tt
  Saved-same (b ∷ bs) (x, xs) = (
    record {
      there = x.there;
      same = same b.backup (ap is_aside x.at_index) ∙ x.same;
      of_database = x.of_database;
      index = x.index;
      at_index = x.at_index;
    },
    Saved-same bs xs,
  )

  pub Open-same :
      {backups : List CheckoutDatabaseBackup} → Open site backups f → Open site backups g
  Open-same {backups} o = record {
    restorable = λ s m.
        rw
          (
            same s.live (ap is_aside (layout.live_role s m)),
            same s.backup (ap is_aside (layout.backup_role s m)),
            same (failed_of site.root s.live) (ap is_aside (layout.failed_role s m)),
          )
          (o.restorable s m);
    saved = Saved-same backups o.saved;
    rest = λ p e. same p (ap is_aside e) ∙ o.rest p e;
  }

  pub Undoing-same :
      (xs : List CheckoutDirectorySwap)
      → Members site xs
      → {backups : List CheckoutDatabaseBackup} → Undoing site backups xs f
      → Undoing site backups xs g
  Undoing-same xs ms u = record { whole = Open-same u.whole; undone = Back-same xs ms u.undone }
