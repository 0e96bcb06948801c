-- ===== src/Checkout/Rolled.antt =====
-- The loops of the rollback of crates/sync-core/src/checkout.rs: wherever they end the live files can still
-- be restored, and where they report no failure the files are those before the operation.
use codex_session_sync.Prelude.{
  ==_refl, ==→eq, All, Bool, Bool-cases, List, Option-cases, Result, String, [], ap, arith, err,
  false, if_false, if_true, inl, inr, is_some, ok, refl, some, subst, sym, true, ◌==◌, ◌∙◌, ◌∷◌,
  ◌≡◌, nat_eq, string_eq, option_eq, list_eq,
}
use codex_session_sync.Checkout.Loops.{Round, Still}
use codex_session_sync.Checkout.Rules.{give_rule, bind_rule, Triple}
use codex_session_sync.Checkout.Calls.{touch_to, attempt_rule, Tried}
use codex_session_sync.Checkout.Rollback.{restore_database, report_unless}
use codex_session_sync.Checkout.Undo.{Back-same, Open-same, is_aside, Members}
use codex_session_sync.Checkout.Journal.{
  database_not_restored, CheckoutError, CheckoutDirectorySwap, CheckoutDatabaseBackup, FilePath,
}
use codex_session_sync.Checkout.Layout.{apart, Back, Saved, Open, Elem, Layout, Site}
use codex_session_sync.Checkout.World.{give, copy, World, set_file, Files, copied}

pub Saved-at :
    {site : Site} {f : Files} (b : CheckoutDatabaseBackup) (bs : List CheckoutDatabaseBackup)
    → Elem b bs
    → All (Saved site f) bs
    → Saved site f b
Saved-at b [] m h = absurd m
Saved-at {site} {f} b (x ∷ bs) (inl e) (h, hs) = subst (Saved site f) (sym e) h
Saved-at b (x ∷ bs) (inr m) (h, hs) = Saved-at b bs m hs

pub copied_lem :
    (source destination : FilePath) (f g : Files)
    → copied source destination f ≡ some g
    → (c : String) × (f source ≡ some c) × (g ≡ set_file destination (some c) f)
unfolding copied
copied_lem source destination f g h = elim (Option-cases (f source)) [
  | inl nothing ↦ ground arith
  | inr (c, found) ↦ (c, found, ground arith)
]

pub copied_there :
    (source destination : FilePath) (f : Files)
    → is_some (f source) ≡ true
    → is_some (copied source destination f) ≡ true
unfolding copied
copied_there source destination f h = ground arith

module _ {site : Site} (layout : Layout site) (backups : List CheckoutDatabaseBackup) where
  -- A database restored.
  abbrev pub Mended : Files → CheckoutDatabaseBackup → Type 0
  Mended f b = f b.target ≡ site.before b.target

  -- While the databases are restored: the swaps `ss` have been undone.
  abbrev pub Undone : List CheckoutDirectorySwap → Files → Type 0
  Undone ss f = Open site backups f × All (Back site f) ss

  restored :
      (ss : List CheckoutDirectorySwap)
      → Members site ss
      → (xs : List CheckoutDatabaseBackup) (b : CheckoutDatabaseBackup) → Elem b backups
      → (f g : Files) → Undone ss f
      → All (Mended f) xs
      → copied b.backup b.target f ≡ some g
      → (Undone ss g × All (Mended g) xs) × Mended g b
  restored ss ms xs b m f g u h made =
      let s = Saved-at b backups m u.0.saved in
      let (c, found, e) = copied_lem b.backup b.target f g made in
      let same : (p : FilePath) → is_aside (site.role p) ≡ false → g p ≡ f p = λ p a.
        ap (λ (k : Files). k p) e
        ∙ if_false _ _
            (apart layout b.target p (λ x. cc (a, ap is_aside x, ap is_aside s.of_database))) in
      let there : g b.target ≡ site.before b.target =
        ap (λ (k : Files). k b.target) e
        ∙ (if_true _ _ (==_refl b.target) ∙ (sym found ∙ s.same)) in
      let other : (p : FilePath) → (b.target == p) ≡ false → g p ≡ f p =
        λ p n. ap (λ (k : Files). k p) e ∙ if_false _ _ n in
      (
        (
          (Open-same layout f g same u.0, Back-same layout f g same ss ms u.1),
          all_kept other there xs h,
        ),
        there,
      )
    where
      all_kept :
          ((p : FilePath) → (b.target == p) ≡ false → g p ≡ f p)
          → g b.target ≡ site.before b.target
          → (ys : List CheckoutDatabaseBackup) → All (Mended f) ys
          → All (Mended g) ys
      all_kept other there [] k = tt
      all_kept other there (y ∷ ys) (k, ks) = (
        elim (Bool-cases (b.target == y.target)) [
          | inl e ↦ subst (λ p. g p ≡ site.before p) (==→eq e) there
          | inr n ↦ other y.target n ∙ k
        ],
        all_kept other there ys ks,
      )

  module _ {quiet : Bool} {r : World} where
    report_rule :
        (ss : List CheckoutDirectorySwap) (xs : List CheckoutDatabaseBackup)
        (b : CheckoutDatabaseBackup) {H : Files → Type 0} (x : Result CheckoutError (Unit {0}))
        → Triple quiet r
            (Tried quiet
              (λ _ f. Still (Undone ss) Mended xs f × Mended f b)
              (Still (Undone ss) Mended xs)
              x)
            (give (report_unless x (database_not_restored b.target)))
            (Round (Undone ss) Mended quiet xs b)
            H
    unfolding report_unless
    report_rule ss xs b (ok u) =
        give_rule []
          (λ f h. record { kept = h.0.0; before_it = h.0.1; ended = λ e. h.1; silent = λ q. refl })
    report_rule ss xs b (err e) = give_rule (database_not_restored b.target ∷ []) (λ f h. record {
      kept = h.0.0;
      before_it = h.0.1;
      ended = λ e. cc;
      silent = λ q. absurd (h.1 q);
    })

    pub restore_database_rule :
        (ss : List CheckoutDirectorySwap)
        → Members site ss
        → (xs : List CheckoutDatabaseBackup) → All (λ b. Elem b backups) xs
        → (b : CheckoutDatabaseBackup) → Elem b backups
        → Triple quiet r
            (Still (Undone ss) Mended xs)
            (restore_database b)
            (Round (Undone ss) Mended quiet xs b)
            (Still (Undone ss) Mended xs)
    unfolding restore_database copy
    restore_database_rule ss ms xs mx b m =
        bind_rule
          (attempt_rule (
            touch_to {G = λ f. Still (Undone ss) Mended xs f × Mended f b} (λ f h. h)
              (λ f h q.
                copied_there b.backup b.target f
                  (let s = Saved-at b backups m h.0.0.saved in ap is_some s.same ∙ s.there))
              (λ f g h e. restored ss ms xs b m f g h.0 h.1 e)))
          (report_rule ss xs b)
