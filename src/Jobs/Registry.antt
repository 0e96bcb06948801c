-- ===== src/Jobs/Registry.antt =====
-- The registry of repository leases, apps/desktop/src-tauri/src/jobs.rs, as a map, and the count of leases.
use codex_session_sync.Prelude.{
  Bool, List, Option, String, [], arith, eq_iff, false, if◌then◌else◌, none, not, refl, some, true,
  ℕ, ◌&&◌, ◌++◌, ◌+◌, ◌<◌, ◌==◌, ◌∷◌, ◌≡◌, nat_eq, string_eq, option_eq,
}
use codex_session_sync.Jobs.Leases.{
  or_default, RepositoryLeaseState, RepositoryLease, lookup, put, remove,
}

pub lookup-put :
    {V : Type 0} (k j : String) (v : V) (m : List (String × V))
    → lookup j (put k v m) ≡ (if k == j then some v else lookup j m)
unfolding lookup put
lookup-put k j v [] = refl
lookup-put k j v ((i, w) ∷ m) =
    ground (arith, eq_iff k j, eq_iff i k, eq_iff i j, lookup-put k j v m)

pub lookup-remove :
    {V : Type 0} (k j : String) (m : List (String × V))
    → lookup j (remove k m) ≡ (if k == j then none else lookup j m)
unfolding lookup remove
lookup-remove k j [] = ground arith
lookup-remove k j ((i, w) ∷ m) =
    ground (arith, eq_iff k j, eq_iff i k, eq_iff i j, lookup-remove k j m)

abbrev pub bit : Bool → ℕ
bit true = 1
bit false = 0

-- How many of the leases are shared, or exclusive, ones of the repository.
unfoldable pub shared : String → List RepositoryLease → ℕ
shared k [] = 0
shared k (l ∷ ls) = bit (l.key == k && not l.exclusive) + shared k ls

unfoldable pub exclusive : String → List RepositoryLease → ℕ
exclusive k [] = 0
exclusive k (l ∷ ls) = bit (l.key == k && l.exclusive) + exclusive k ls

pub shared-middle :
    (k : String) (before after : List RepositoryLease) (l : RepositoryLease)
    → shared k (before ++ l ∷ after) ≡ shared k (l ∷ before ++ after)
unfolding shared
shared-middle k [] after l = refl
shared-middle k (b ∷ before) after l = omega (arith, shared-middle k before after l)

pub exclusive-middle :
    (k : String) (before after : List RepositoryLease) (l : RepositoryLease)
    → exclusive k (before ++ l ∷ after) ≡ exclusive k (l ∷ before ++ after)
unfolding exclusive
exclusive-middle k [] after l = refl
exclusive-middle k (b ∷ before) after l = omega (arith, exclusive-middle k before after l)

-- What an entry of the registry says of the leases held: so many readers, a writer or none, never both,
-- and no entry that stands for no lease.
pub record Tally (entry : Option RepositoryLeaseState) (readers writers : ℕ) : Type 0 where
  pub readers_match : (or_default entry).readers ≡ readers
  pub writer_matches : bit (or_default entry).writer ≡ writers
  pub apart : 0 < writers → readers ≡ 0
  pub live :
      (state : RepositoryLeaseState) → entry ≡ some state → 0 < state.readers + bit state.writer
