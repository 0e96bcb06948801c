-- ===== src/Checkout/Applied.antt =====
-- The writes of a checkout, crates/sync-core/src/checkout.rs, one after another.
use codex_session_sync.Checkout.Transact.{Plan, apply}
use codex_session_sync.Prelude.{
  All, Bool, List, Option, Option-cases, Result, String, [], ap, arith, err, err≢ok, false,
  if_false, if◌then◌else◌, inl, inr, map, none, ok, ok-injective, some, subst, true, ℕ, ◌++◌, ◌∙◌,
  ◌∷◌, ◌≡◌, nat_eq, string_eq, option_eq, list_eq,
}
use codex_session_sync.Checkout.Apply.{
  apply_file_swaps, apply_directory_swaps, apply_directory_swap, apply_file_swap,
}
use codex_session_sync.Checkout.Installed.{
  known_rule, look_rule, apply_directory_swap_rule, apply_file_swap_rule, each_rule, Awaiting, Once,
}
use codex_session_sync.Checkout.Rollback.{swap_of}
use codex_session_sync.Checkout.Undo.{is_aside, Open-same, Members}
use codex_session_sync.Checkout.Rules.{consequence, bind_rule, give_rule, Triple}
use codex_session_sync.Checkout.Calls.{frame_rule, touch_to}
use codex_session_sync.Checkout.Databases.{
  is_better, replace_databases, select_primary_database, best, candidates,
  invalidate_local_thread_catalogs,
}
use codex_session_sync.Checkout.Machine.{Machine}
use codex_session_sync.Checkout.Journal.{
  CheckoutJournal, no_database, CheckoutError, CheckoutFileSwap, CheckoutDirectorySwap,
  CheckoutDatabaseBackup, FilePath,
}
use codex_session_sync.Checkout.Layout.{Elem, apart, Open, database, Layout, Site}
use codex_session_sync.Checkout.Loops.{All-of_append}
use codex_session_sync.Checkout.World.{for_each, rewrite, World, set_file, Files, rewritten}

rewritten_lem :
    (p : FilePath) (change : String → Option String) (f g : Files)
    → rewritten p change f ≡ some g
    → (c : Option String) × (g ≡ set_file p c f)
unfolding rewritten
rewritten_lem p change f g h = elim (Option-cases (f p)) [
  | inl e ↦ ground arith
  | inr (c, e) ↦ elim (Option-cases (change c)) [
    | inl k ↦ ground arith
    | inr (d, k) ↦ (some d, ground arith)
  ]
]

Once-of_append : (xs ys : List CheckoutDirectorySwap) → Once (xs ++ ys) → Once ys
Once-of_append [] ys h = h
Once-of_append (x ∷ xs) ys (a, h) = Once-of_append xs ys h

module _ {site : Site} (layout : Layout site) (backups : List CheckoutDatabaseBackup)
    {r : World} where
  pub apply_directory_swaps_rule :
      (ss rest : List CheckoutDirectorySwap)
      → Members site (ss ++ rest)
      → Once (ss ++ rest)
      → Triple false r
          (Awaiting layout backups (ss ++ rest))
          (for_each apply_directory_swap ss)
          (λ u. Awaiting layout backups rest)
          (Open site backups)
  unfolding for_each
  apply_directory_swaps_rule [] rest ms o = give_rule tt (λ f h. h)
  apply_directory_swaps_rule (s ∷ ss) rest (m, ms) (a, o) =
      bind_rule (apply_directory_swap_rule layout backups s m (ss ++ rest) ms a)
        (λ u. apply_directory_swaps_rule ss rest ms o)

  pub apply_file_swaps_rule :
      (ss : List CheckoutFileSwap)
      → Members site (map swap_of ss)
      → Once (map swap_of ss)
      → Triple false r
          (Awaiting layout backups (map swap_of ss))
          (for_each apply_file_swap ss)
          (λ u. Awaiting layout backups [])
          (Open site backups)
  unfolding for_each
  apply_file_swaps_rule [] ms o = give_rule tt (λ f h. h)
  apply_file_swaps_rule (s ∷ ss) (m, ms) (a, o) =
      bind_rule
        (apply_file_swap_rule layout backups s.swap m (map swap_of ss) ms a s.expected_sha256)
        (λ u. apply_file_swaps_rule ss ms o)

  pub rewrite_rule :
      (change : String → Option String) (p : FilePath)
      → site.role p ≡ database
      → Triple false r
          (Open site backups)
          (rewrite p change)
          (λ u. Open site backups)
          (Open site backups)
  unfolding rewrite
  rewrite_rule change p e =
      touch_to (λ f h. h) (λ f h q. cc)
        (λ f g h made.
          let (c, k) = rewritten_lem p change f g made in
          Open-same layout f g
            (λ q a.
              ap (λ (x : Files). x q) k
              ∙ if_false _ _ (apart layout p q (λ x. cc (a, ap is_aside x, ap is_aside e))))
            h)

  module _ (m : Machine) where
    pub invalidate_rule :
        (catalogs : List FilePath)
        → All (λ p. site.role p ≡ database) catalogs
        → Triple false r
            (Open site backups)
            (invalidate_local_thread_catalogs m catalogs)
            (λ u. Open site backups)
            (Open site backups)
    unfolding invalidate_local_thread_catalogs
    invalidate_rule catalogs ms =
        each_rule (λ p. site.role p ≡ database) (λ p. rewrite p m.invalidate_catalog)
          (rewrite_rule m.invalidate_catalog) catalogs ms

-- The primary database is one of those given.
module _ (P : FilePath → Type 0) where
  abbrev HoldsOf : Option (ℕ × FilePath) → Type 0
  HoldsOf none = Unit
  HoldsOf (some c) = P c.1

  better : (b c : ℕ × FilePath) (test : Bool) → P b.1 → P c.1 → P (if test then c else b).1
  better b c true hb hc = hc
  better b c false hb hc = hb

  best_holds :
      (primary_of : Option (ℕ × FilePath)) (cs : List (ℕ × FilePath))
      → HoldsOf primary_of
      → All (λ c. P c.1) cs
      → HoldsOf (best primary_of cs)
  unfolding best
  best_holds none [] h k = tt
  best_holds (some b) [] h k = h
  best_holds none (c ∷ cs) h (k, ks) = best_holds (some c) cs k ks
  best_holds (some b) (c ∷ cs) h (k, ks) =
      best_holds (some (if is_better c b then c else b)) cs (better b c (is_better c b) h k) ks

  module _ (m : Machine) (f : Files) where
    candidates_hold : (ps : List FilePath) → All P ps → All (λ c. P c.1) (candidates m ps f)
    unfolding candidates
    candidates_hold [] h = tt
    candidates_hold (p ∷ ps) (h, hs) = at_file (candidates_hold ps hs) (f p)
      where
        counted :
            All (λ (c : ℕ × FilePath). P c.1) (candidates m ps f)
            → (o : Option ℕ)
            → All
                (λ (c : ℕ × FilePath). P c.1)
                (elim o [ none ↦ candidates m ps f | some n ↦ (n, p) ∷ candidates m ps f ])
        counted rest none = rest
        counted rest (some n) = (h, rest)

        at_file :
            All (λ (c : ℕ × FilePath). P c.1) (candidates m ps f)
            → (o : Option String)
            → All
                (λ (c : ℕ × FilePath). P c.1)
                (elim o [
                  | none ↦ candidates m ps f
                  | some content ↦ elim (m.count_threads content) [
                    | none ↦ candidates m ps f
                    | some n ↦ (n, p) ∷ candidates m ps f
                  ]
                ])
        at_file rest none = rest
        at_file rest (some content) = counted rest (m.count_threads content)

    primary_holds :
        (ps : List FilePath) (p : FilePath) → All P ps → select_primary_database m ps f ≡ ok p → P p
    unfolding select_primary_database
    primary_holds ps p h e =
        primary_of (best none (candidates m ps f)) (best_holds none _ tt (candidates_hold ps h)) e
      where
        primary_of :
            (o : Option (ℕ × FilePath))
            → HoldsOf o
            → ◌≡◌ {A = Result CheckoutError FilePath}
                (elim o [ none ↦ err no_database | some (n, q) ↦ ok q ])
                (ok p)
            → P p
        primary_of none k x = absurd (err≢ok x)
        primary_of (some (n, q)) k x = subst P (ok-injective x) k

module _ {site : Site} (layout : Layout site) (backups : List CheckoutDatabaseBackup) {r : World}
    (m : Machine) where
  pub replace_databases_rule :
      (ps : List FilePath)
      → All (λ p. site.role p ≡ database) ps
      → Triple false r
          (Open site backups)
          (replace_databases m ps)
          (λ u. Open site backups)
          (Open site backups)
  unfolding replace_databases
  replace_databases_rule ps h =
      bind_rule {G = λ p f. Open site backups f × (site.role p ≡ database)}
        (consequence (λ f o. o)
          (λ p f o. (o.0, primary_holds (λ q. site.role q ≡ database) m f ps p h o.1)) (λ f o. o)
          (look_rule (select_primary_database m ps)))
        (λ p.
          bind_rule
            (frame_rule {C = site.role p ≡ database} (
              each_rule (λ q. site.role q ≡ database) (λ q. rewrite q m.delete_threads)
                (rewrite_rule layout backups m.delete_threads) ps h))
            (λ u. known_rule (λ e. rewrite_rule layout backups m.insert_threads p e)))

  -- All the writes of a checkout that are not the journal's.
  pub apply_rule :
      (plan : Plan) (j : CheckoutJournal)
      → Members site (j.directory_swaps ++ map swap_of j.file_swaps)
      → Once (j.directory_swaps ++ map swap_of j.file_swaps)
      → All (λ p. site.role p ≡ database) plan.databases
      → All (λ p. site.role p ≡ database) plan.catalogs
      → Triple false r
          (Awaiting layout backups (j.directory_swaps ++ map swap_of j.file_swaps))
          (apply m plan j)
          (λ u. Open site backups)
          (Open site backups)
  unfolding apply apply_directory_swaps apply_file_swaps
  apply_rule plan j ms once ds cs =
      bind_rule
        (apply_directory_swaps_rule layout backups j.directory_swaps (map swap_of j.file_swaps) ms
          once)
        (λ u.
          bind_rule
            (consequence (λ f h. h) (λ a f h. h.0) (λ f h. h)
              (apply_file_swaps_rule layout backups j.file_swaps
                (All-of_append (λ s. Elem s site.swaps) j.directory_swaps (map swap_of j.file_swaps)
                  ms).1
                (Once-of_append j.directory_swaps (map swap_of j.file_swaps) once)))
            (λ v.
              bind_rule (replace_databases_rule plan.databases ds)
                (λ x. invalidate_rule layout backups m plan.catalogs cs)))
