-- ===== src/Checkout/Databases.antt =====
-- The databases of a Codex home as crates/sync-core/src/checkout.rs changes them, and the choice of the
-- primary one in crates/sync-core/src/local.rs.
use codex_session_sync.Prelude.{
  Bool, List, Option, Result, [], contains, eqb, err, false, if◌then◌else◌, ltb, none, not, ok,
  some, true, ℕ, ◌&&◌, ◌++◌, ◌+◌, ◌||◌, ◌∷◌, nat_eq, string_eq, option_eq, list_eq,
}
use codex_session_sync.Checkout.Apply.{write_checkout_journal, advance}
use codex_session_sync.Checkout.Machine.{Machine}
use codex_session_sync.Checkout.Journal.{
  CheckoutDatabaseBackup, no_database, CheckoutError, FilePath,
}
use Prim.Native.Nat.{Ordering}
use Prim.Native.String.{compare}
use codex_session_sync.Checkout.World.{
  hold, held_journal, give, look, copy, rewrite, Files, Action, for_each, ◌>>=◌, ◌>>◌,
}

-- The order of paths, by their components.
unfoldable pub path_before : FilePath → FilePath → Bool
path_before [] [] = false
path_before [] (q ∷ qs) = true
path_before (p ∷ ps) [] = false
path_before (p ∷ ps) (q ∷ qs) = elim (compare p q) [
  | Ordering.lt ↦ true
  | Ordering.eq ↦ path_before ps qs
  | Ordering.gt ↦ false
]

-- `max_by`: more threads, then the smaller path; of equal ones the later.
abbrev pub is_better : ℕ × FilePath → ℕ × FilePath → Bool
is_better (n, p) (k, q) = ltb k n || (eqb k n && not (path_before q p))

unfoldable pub best : Option (ℕ × FilePath) → List (ℕ × FilePath) → Option (ℕ × FilePath)
best chosen [] = chosen
best none (c ∷ cs) = best (some c) cs
best (some b) (c ∷ cs) = best (some (if is_better c b then c else b)) cs

module _ (m : Machine) where
  -- A database that cannot be read, or that has no table of threads, is no candidate.
  unfoldable pub candidates : List FilePath → Files → List (ℕ × FilePath)
  candidates [] files = []
  candidates (p ∷ ps) files = elim (files p) [
    | none ↦ candidates ps files
    | some content ↦ elim (m.count_threads content) [
      | none ↦ candidates ps files
      | some n ↦ (n, p) ∷ candidates ps files
    ]
  ]

  unfoldable pub select_primary_database : List FilePath → Files → Result CheckoutError FilePath
  unfolding best candidates
  select_primary_database paths files = elim (best none (candidates paths files)) [
    | none ↦ err no_database
    | some (n, p) ↦ ok p
  ]

  unfoldable pub replace_databases : List FilePath → Action (Unit {0})
  unfolding select_primary_database for_each
  replace_databases paths = do
    primary ← look (select_primary_database paths)
    for_each (λ p. rewrite p m.delete_threads) paths
    rewrite primary m.insert_threads

  unfoldable pub invalidate_local_thread_catalogs : List FilePath → Action (Unit {0})
  unfolding for_each
  invalidate_local_thread_catalogs catalogs =
      for_each (λ p. rewrite p m.invalidate_catalog) catalogs

  -- `database_dir.join(format!("{index}.sqlite"))`, with the names of the indices given
  unfoldable pub back_up_database : (ℕ → FilePath) → ℕ → FilePath → Action (Unit {0})
  unfolding advance
  back_up_database place index database = do
    copy database (place index)
    journal ← held_journal
    let saved : CheckoutDatabaseBackup = record { target = database; backup = place index }
    let new = record journal {
      database_backups = journal.database_backups ++ (saved ∷ []);
      updated_at = m.now;
    }
    hold new
    write_checkout_journal m new

  unfoldable pub back_up_databases : (ℕ → FilePath) → ℕ → List FilePath → Action (Unit {0})
  unfolding back_up_database
  back_up_databases place index [] = give tt
  back_up_databases place index (p ∷ ps) =
      back_up_database place index p >> back_up_databases place (index + 1) ps

-- The databases to back up: those of the scan, then the catalogs that are not among them.
unfoldable pub add_catalogs : List FilePath → List FilePath → List FilePath
add_catalogs databases [] = databases
add_catalogs databases (c ∷ cs) =
    add_catalogs (if contains databases c then databases else databases ++ (c ∷ [])) cs
