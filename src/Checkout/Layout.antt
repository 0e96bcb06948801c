-- ===== src/Checkout/Layout.antt =====
-- The paths of one checkout (crates/sync-core/src/checkout.rs), each with one part to play, and what of the
-- live files the other paths still hold.
use codex_session_sync.Prelude.{
  All, Bool, List, Option, String, [], ap, false, is_some, ne→==, none, some, sym, true, ℕ, ◌++◌,
  ◌==◌, ◌∙◌, ◌∷◌, ◌≡◌, ◌⊎◌, nat_eq, string_eq, option_eq, list_eq,
}
use codex_session_sync.Checkout.Rollback.{file_name}
use codex_session_sync.Checkout.Journal.{CheckoutDirectorySwap, FilePath, CheckoutDatabaseBackup}
use codex_session_sync.Checkout.World.{Files}

-- A path is live, a database of the home, a path of the operation's own, or none of these.
pub data Role : Type 0 where
  live_path database elsewhere : Role
  staged_path backup_path failed_path : FilePath → Role
  saved_path : ℕ → Role

abbrev pub is_private : Role → Bool
is_private live_path = false
is_private database = false
is_private elsewhere = false
is_private (staged_path p) = true
is_private (backup_path p) = true
is_private (failed_path p) = true
is_private (saved_path n) = true

abbrev pub Elem : {A : Type 0} → A → List A → Type 0
Elem a [] = ⊥
Elem a (x ∷ xs) = (a ≡ x) ⊎ Elem a xs

-- Where a live path is moved to when it is rolled back.
unfoldable pub failed_of : FilePath → FilePath → FilePath
failed_of root live = elim (file_name live) [ none ↦ root | some name ↦ root ++ (name ∷ []) ]

-- The operation: the files before it, its swaps, and the directory of its failed states.
pub record Site : Type 0 where
  pub role : FilePath → Role
  pub before : Files
  pub swaps : List CheckoutDirectorySwap
  pub root : FilePath

pub record Layout (site : Site) : Type 0 where
  pub named : (s : CheckoutDirectorySwap) → Elem s site.swaps → is_some (file_name s.live) ≡ true
  pub live_role : (s : CheckoutDirectorySwap) → Elem s site.swaps → site.role s.live ≡ live_path
  pub staged_role :
      (s : CheckoutDirectorySwap) → Elem s site.swaps → site.role s.staged ≡ staged_path s.live
  pub backup_role :
      (s : CheckoutDirectorySwap) → Elem s site.swaps → site.role s.backup ≡ backup_path s.live
  pub failed_role :
      (s : CheckoutDirectorySwap)
      → Elem s site.swaps
      → site.role (failed_of site.root s.live) ≡ failed_path s.live
  pub once :
      (s t : CheckoutDirectorySwap)
      → Elem s site.swaps
      → Elem t site.swaps
      → s.live ≡ t.live
      → s ≡ t
  pub existed :
      (s : CheckoutDirectorySwap)
      → Elem s site.swaps
      → s.original_existed ≡ is_some (site.before s.live)
  pub lives :
      (p : FilePath)
      → site.role p ≡ live_path
      → (s : CheckoutDirectorySwap) × Elem s site.swaps × (p ≡ s.live)

-- What was at a live path, and what is now at it, at its backup and at its failed state: the old content
-- is at one of the first two, and the place for a failed state is free where it is needed.
pub data Restorable (was live backup failed : Option String) : Type 0 where
  untouched : backup ≡ none → live ≡ was → Restorable was live backup failed
  emptied : is_some was ≡ true → backup ≡ was → live ≡ none → Restorable was live backup failed
  replaced : is_some was ≡ true → backup ≡ was → failed ≡ none → Restorable was live backup failed
  added : was ≡ none → backup ≡ none → failed ≡ none → Restorable was live backup failed

module _ (site : Site) where
  abbrev pub IsRestorable : Files → CheckoutDirectorySwap → Type 0
  IsRestorable f s =
      Restorable (site.before s.live) (f s.live) (f s.backup) (f (failed_of site.root s.live))

  -- A swap that has been undone, or was never begun.
  pub record Back (f : Files) (s : CheckoutDirectorySwap) : Type 0 where
    pub cleared : f s.backup ≡ none
    pub back : f s.live ≡ site.before s.live

  -- A backup of a database holds what the database held.
  pub record Saved (f : Files) (b : CheckoutDatabaseBackup) : Type 0 where
    pub there : is_some (site.before b.target) ≡ true
    pub same : f b.backup ≡ site.before b.target
    pub of_database : site.role b.target ≡ database
    pub index : ℕ
    pub at_index : site.role b.backup ≡ saved_path index

  -- While the live files may be changed: each swap can be undone, each backup is whole, and what the
  -- operation has no business with is as it was.
  pub record Open (backups : List CheckoutDatabaseBackup) (f : Files) : Type 0 where
    pub restorable : (s : CheckoutDirectorySwap) → Elem s site.swaps → IsRestorable f s
    pub saved : All (Saved f) backups
    pub rest : (p : FilePath) → site.role p ≡ elsewhere → f p ≡ site.before p

  -- Outside the operation's own paths, every file is as it was before the operation.
  abbrev pub Agrees : Files → Type 0
  Agrees f = (p : FilePath) → is_private (site.role p) ≡ false → f p ≡ site.before p

-- The files outside the four paths of a swap are the same.
pub record Beside (site : Site) (t : CheckoutDirectorySwap) (f g : Files) : Type 0 where
  pub beside :
      (p : FilePath)
      → (t.live == p) ≡ false
      → (t.staged == p) ≡ false
      → (t.backup == p) ≡ false
      → (failed_of site.root t.live == p) ≡ false
      → g p ≡ f p

module _ {site : Site} (layout : Layout site) where
  -- Paths of different parts are different.
  pub apart : (p q : FilePath) → ¬ (site.role p ≡ site.role q) → (p == q) ≡ false
  apart p q h = ne→== p q (λ e. h (ap site.role e))

  module _ {t : CheckoutDirectorySwap} (mine : Elem t site.swaps) {f g : Files}
      (same : Beside site t f g) where
    -- A path whose part is none of the swap's.
    pub other_role :
        (p : FilePath)
        → ¬ (site.role p ≡ live_path)
        → ¬ (site.role p ≡ staged_path t.live)
        → ¬ (site.role p ≡ backup_path t.live)
        → ¬ (site.role p ≡ failed_path t.live)
        → g p ≡ f p
    other_role p a b c d =
        same.beside p (apart _ _ (λ e. a (sym e ∙ layout.live_role t mine)))
          (apart _ _ (λ e. b (sym e ∙ layout.staged_role t mine)))
          (apart _ _ (λ e. c (sym e ∙ layout.backup_role t mine)))
          (apart _ _ (λ e. d (sym e ∙ layout.failed_role t mine)))

    -- The paths of another swap.
    module _ (s : CheckoutDirectorySwap) (hers : Elem s site.swaps) (n : ¬ (t.live ≡ s.live)) where
      pub other_live : g s.live ≡ f s.live
      other_live =
          let r : site.role s.live ≡ live_path = layout.live_role s hers in
          same.beside s.live (ne→== t.live s.live n)
            (apart t.staged s.live (λ e. cc (r, e, layout.staged_role t mine)))
            (apart t.backup s.live (λ e. cc (r, e, layout.backup_role t mine)))
            (apart (failed_of site.root t.live) s.live (λ e. cc (r, e, layout.failed_role t mine)))

      pub other_backup : g s.backup ≡ f s.backup
      other_backup =
          let r : site.role s.backup ≡ backup_path s.live = layout.backup_role s hers in
          other_role s.backup (λ e. cc (r, e)) (λ e. cc (r, e)) (λ e. n (cc (r, e)))
            (λ e. cc (r, e))

      pub other_failed : g (failed_of site.root s.live) ≡ f (failed_of site.root s.live)
      other_failed =
          let r : site.role (failed_of site.root s.live) ≡ failed_path s.live =
            layout.failed_role s hers in
          other_role (failed_of site.root s.live) (λ e. cc (r, e)) (λ e. cc (r, e)) (λ e. cc (r, e))
            (λ e. n (cc (r, e)))
