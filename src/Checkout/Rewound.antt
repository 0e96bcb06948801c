-- ===== src/Checkout/Rewound.antt =====
-- All three loops of the rollback of crates/sync-core/src/checkout.rs, for the journal they work from.
use codex_session_sync.Prelude.{
  All, Bool, Bool-cases, List, [], false, inl, inr, map, refl, subst, sym, true, ◌++◌, ◌∷◌, ◌≡◌,
  nat_eq, string_eq, option_eq, list_eq,
}
use codex_session_sync.Checkout.Undone.{roll_back_swap_rule}
use codex_session_sync.Checkout.Rules.{give_rule, consequence, bind_rule, Triple}
use codex_session_sync.Checkout.Calls.{absurd_rule}
use codex_session_sync.Checkout.Rolled.{restore_database_rule, Undone, Mended}
use codex_session_sync.Checkout.Loops.{
  All-of_append, Round, collect_rule, All-of_reverse, All-append, Looped, Still, All-reverse,
}
use codex_session_sync.Checkout.Undo.{Members}
use codex_session_sync.Checkout.Rollback.{
  restore_database, roll_back_swap, restore_databases, undo, failed_root_of, swap_of,
}
use codex_session_sync.Checkout.Layout.{
  is_private, Agrees, Back, Open, Site, database, Layout, Role, Elem,
}
use codex_session_sync.Checkout.Journal.{
  Failure, CheckoutDatabaseBackup, CheckoutDirectorySwap, FilePath, CheckoutJournal,
}
use codex_session_sync.Checkout.Layout.{
  live_path, database, elsewhere, staged_path, backup_path, failed_path, saved_path,
}
use codex_session_sync.Checkout.World.{give, collect, World, Files, ◌>>=◌}
use mathlib.Core.List.{reverse}

abbrev pub swaps_of : CheckoutJournal → List CheckoutDirectorySwap
swaps_of j = map swap_of j.file_swaps ++ j.directory_swaps

abbrev pub site_of : (FilePath → Role) → Files → CheckoutJournal → Site
site_of role before j = record {
  role = role;
  before = before;
  swaps = swaps_of j;
  root = failed_root_of j;
}

-- Each database that the operation changes has a backup in the journal.
abbrev pub Covers : (FilePath → Role) → List CheckoutDatabaseBackup → Type 0
Covers role bs =
    (p : FilePath) → role p ≡ database → (b : CheckoutDatabaseBackup) × Elem b bs × (p ≡ b.target)

pub Elem-append_left : {A : Type 0} (a : A) (xs ys : List A) → Elem a xs → Elem a (xs ++ ys)
Elem-append_left a [] ys m = absurd m
Elem-append_left a (x ∷ xs) ys (inl e) = inl e
Elem-append_left a (x ∷ xs) ys (inr m) = inr (Elem-append_left a xs ys m)

pub Elem-append_right : {A : Type 0} (a : A) (xs ys : List A) → Elem a ys → Elem a (xs ++ ys)
Elem-append_right a [] ys m = m
Elem-append_right a (x ∷ xs) ys m = inr (Elem-append_right a xs ys m)

pub All-of_Elem :
    {A : Type 0} (P : A → Type 0) (xs : List A) → ((a : A) → Elem a xs → P a) → All P xs
All-of_Elem P [] h = tt
All-of_Elem P (x ∷ xs) h = (h x (inl refl), All-of_Elem P xs (λ a m. h a (inr m)))

pub All-at : {A : Type 0} (P : A → Type 0) (xs : List A) → All P xs → (a : A) → Elem a xs → P a
All-at P [] h a m = absurd m
All-at P (x ∷ xs) (h, hs) a (inl e) = subst P (sym e) h
All-at P (x ∷ xs) (h, hs) a (inr m) = All-at P xs hs a m

module _ (role : FilePath → Role) (before : Files) (j : CheckoutJournal)
    (layout : Layout (site_of role before j)) where
  abbrev pub site : Site
  site = site_of role before j

  abbrev pub files : List CheckoutDirectorySwap
  files = reverse (map swap_of j.file_swaps)

  abbrev pub directories : List CheckoutDirectorySwap
  directories = reverse j.directory_swaps

  pub Members-files : Members site files
  Members-files =
      All-reverse (λ s. Elem s (swaps_of j)) (map swap_of j.file_swaps)
        (All-of_Elem _ (map swap_of j.file_swaps)
          (λ s m. Elem-append_left s (map swap_of j.file_swaps) j.directory_swaps m))

  pub Members-directories : Members site directories
  Members-directories =
      All-reverse (λ s. Elem s (swaps_of j)) j.directory_swaps
        (All-of_Elem _ j.directory_swaps
          (λ s m. Elem-append_right s (map swap_of j.file_swaps) j.directory_swaps m))

  -- Every swap undone and every database restored, the files are those before the operation.
  module _ (f : Files) (covers : Covers role j.database_backups)
      (whole : Open site j.database_backups f) (of_files : All (Back site f) files)
      (of_directories : All (Back site f) directories)
      (of_databases : All (Mended layout j.database_backups f) j.database_backups) where
    all_back : All (Back site f) (swaps_of j)
    all_back =
        All-append (Back site f) (map swap_of j.file_swaps) j.directory_swaps
          (All-of_reverse (Back site f) (map swap_of j.file_swaps) of_files)
          (All-of_reverse (Back site f) j.directory_swaps of_directories)

    agrees_at : (p : FilePath) (r : Role) → role p ≡ r → is_private r ≡ false → f p ≡ before p
    agrees_at p live_path e h =
        let (s, m, at) = layout.lives p e in
        subst (λ q. f q ≡ before q) (sym at) (All-at (Back site f) (swaps_of j) all_back s m).back
    agrees_at p database e h =
        let (b, m, at) = covers p e in
        subst (λ q. f q ≡ before q) (sym at)
          (All-at (Mended layout j.database_backups f) j.database_backups of_databases b m)
    agrees_at p elsewhere e h = whole.rest p e
    agrees_at p (staged_path q) e h = cc
    agrees_at p (backup_path q) e h = cc
    agrees_at p (failed_path q) e h = cc
    agrees_at p (saved_path n) e h = cc

    agrees : Agrees site f
    agrees p h = agrees_at p (role p) refl h

  -- What the loops leave and report.
  pub record Rewound (quiet : Bool) (failures : List Failure) (f : Files) : Type 0 where
    pub whole : Open site j.database_backups f
    pub rewound : failures ≡ [] → Agrees site f
    pub silent : quiet ≡ true → failures ≡ []

  abbrev Whole : Files → Type 0
  Whole = Open site j.database_backups

  module _ {quiet : Bool} {r : World} where
    Round-rule :
        (xs : List CheckoutDirectorySwap)
        → Members site xs
        → (s : CheckoutDirectorySwap) → Elem s (swaps_of j)
        → Triple quiet r
            (Still Whole (Back site) xs)
            (roll_back_swap true (failed_root_of j) s)
            (Round Whole (Back site) quiet xs s)
            (Still Whole (Back site) xs)
    Round-rule xs ms s m =
        consequence (λ f h. record { whole = h.0; undone = h.1 })
          (λ a f h. record {
            kept = h.undoing.whole;
            before_it = h.undoing.undone;
            ended = h.back;
            silent = h.silent;
          })
          (λ f h. (h.whole, h.undone)) (roll_back_swap_rule layout j.database_backups s m xs ms)

    loop_rule :
        (xs : List CheckoutDirectorySwap)
        → Members site xs
        → (ys : List CheckoutDirectorySwap) → Members site ys
        → Triple quiet r
            (Still Whole (Back site) xs)
            (collect (roll_back_swap true (failed_root_of j)) ys)
            (Looped Whole (Back site) quiet xs ys)
            (Still Whole (Back site) xs)
    loop_rule =
        collect_rule Whole (Back site) (λ s. Elem s (swaps_of j))
          (roll_back_swap true (failed_root_of j)) Round-rule

    databases_rule :
        (ss : List CheckoutDirectorySwap)
        → Members site ss
        → Triple quiet r
            (Undone layout j.database_backups ss)
            (restore_databases true j.database_backups)
            (Looped
              (Undone layout j.database_backups ss)
              (Mended layout j.database_backups)
              quiet
              []
              j.database_backups)
            (Undone layout j.database_backups ss)
    unfolding restore_databases
    databases_rule ss ms =
        consequence (λ f h. (h, tt)) (λ a f h. h) (λ f h. h.0)
          (collect_rule (Undone layout j.database_backups ss) (Mended layout j.database_backups)
            (λ b. Elem b j.database_backups) restore_database
            (restore_database_rule layout j.database_backups ss ms) [] tt j.database_backups
            (All-of_Elem _ j.database_backups (λ b m. m)))

    -- Once a failure has been reported, the rest of the loops keeps what can be undone.
    broken_rule :
        (x : Failure) (failures : List Failure)
        → ¬ (quiet ≡ true)
        → Triple quiet r Whole
            (restore_databases true j.database_backups >>= λ databases.
              give ((x ∷ failures) ++ databases))
            (Rewound quiet)
            Whole
    broken_rule x failures n =
        consequence (λ f h. (h, tt)) (λ a f h. h) (λ f h. h.0)
          (bind_rule (databases_rule [] tt) (λ databases.
            give_rule ((x ∷ failures) ++ databases)
              (λ f h. record { whole = h.kept.0; rewound = λ e. cc; silent = λ q. absurd (n q) })))

    last_rule :
        Covers role j.database_backups
        → (failures : List Failure)
        → Triple quiet r
            (Looped Whole (Back site) quiet files directories failures)
            (restore_databases true j.database_backups >>= λ databases.
              give (failures ++ databases))
            (Rewound quiet)
            Whole
    last_rule covers [] =
        consequence
          (λ f h. (h.kept, All-append (Back site f) files directories h.before_it (h.ended refl)))
          (λ a f h. h) (λ f h. h.0)
          (bind_rule
            (databases_rule (files ++ directories) (
              All-append (λ s. Elem s (swaps_of j)) files directories Members-files
                Members-directories))
            (λ databases. give_rule databases (λ f h. record {
              whole = h.kept.0;
              rewound = λ e.
                  let (a, b) = All-of_append (Back site f) files directories h.kept.1 in
                  agrees f covers h.kept.0 a b (h.ended e);
              silent = h.silent;
            })))
    last_rule covers (x ∷ failures) = elim (Bool-cases quiet) [
      | inl q ↦ absurd_rule (λ f h. cc (h.silent q))
      | inr n ↦
          consequence (λ f h. h.kept) (λ a f h. h) (λ f h. h)
            (broken_rule x failures (λ q. cc (q, n)))
    ]

    second_rule :
        Covers role j.database_backups
        → (failures : List Failure)
        → Triple quiet r
            (Looped Whole (Back site) quiet [] files failures)
            (collect (roll_back_swap true (failed_root_of j)) directories >>= λ more.
              restore_databases true j.database_backups >>= λ databases.
              give ((failures ++ more) ++ databases))
            (Rewound quiet)
            Whole
    second_rule covers [] =
        consequence (λ f h. (h.kept, h.ended refl)) (λ a f h. h) (λ f h. h)
          (bind_rule
            (consequence (λ f h. h) (λ a f h. h) (λ f h. h.0)
              (loop_rule files Members-files directories Members-directories))
            (last_rule covers))
    second_rule covers (x ∷ failures) = elim (Bool-cases quiet) [
      | inl q ↦ absurd_rule (λ f h. cc (h.silent q))
      | inr n ↦
          consequence (λ f h. (h.kept, tt)) (λ a f h. h) (λ f h. h)
            (bind_rule
              (consequence (λ f h. h) (λ a f h. h.kept) (λ f h. h.0)
                (loop_rule [] tt directories Members-directories))
              (λ more. broken_rule x (failures ++ more) (λ q. cc (q, n))))
    ]

    pub undo_rule :
        Covers role j.database_backups → Triple quiet r Whole (undo true j) (Rewound quiet) Whole
    unfolding undo
    undo_rule covers =
        bind_rule
          (consequence (λ f h. (h, tt)) (λ a f h. h) (λ f h. h.0)
            (loop_rule [] tt files Members-files))
          (second_rule covers)
