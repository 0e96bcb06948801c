-- ===== src/Jobs/Leases.antt =====
-- The leases of apps/desktop/src-tauri/src/jobs.rs. Each registry stands behind a mutex that a panic
-- alone poisons, so one call is one step; paths come normalised, by the operating system.
use codex_session_sync.Prelude.{
  Bool, List, Option, Result, String, [], contains, eqb, err, false, filter, if◌then◌else◌, ltb,
  none, not, ok, some, true, ℕ, ◌&&◌, ◌+◌, ◌-◌, ◌==◌, ◌^◌, ◌||◌, ◌∷◌, nat_eq, string_eq, option_eq,
}

-- `usize` of the 64-bit targets
abbrev pub usize_mod : ℕ
usize_mod = 2 ^ 64

pub record RepositoryLeaseState : Type 0 where
  pub readers : ℕ
  pub writer : Bool

pub record JobManager : Type 0 where
  pub active_codex_homes : List String
  pub repositories : List (String × RepositoryLeaseState)

pub record RepositoryLease : Type 0 where
  pub key : String
  pub exclusive : Bool

pub data LeaseError : Type 0 where
  not_normalized home_busy incompatible reader_overflow : LeaseError

abbrev pub empty_state : RepositoryLeaseState
empty_state = record { readers = 0; writer = false }

-- `HashSet::insert`, `HashSet::remove`; the order of the entries is not modelled.
unfoldable pub try_acquire_codex_home : String → JobManager → Result LeaseError JobManager
try_acquire_codex_home key s =
    if contains s.active_codex_homes key
    then err home_busy
    else ok (record s { active_codex_homes = key ∷ s.active_codex_homes })

unfoldable pub drop_codex_home : String → JobManager → JobManager
drop_codex_home key s = record s {
  active_codex_homes = filter (λ k. not (k == key)) s.active_codex_homes;
}

-- `HashMap::get`, `HashMap::insert`, `HashMap::remove`
unfoldable pub lookup : {V : Type 0} → String → List (String × V) → Option V
lookup k [] = none
lookup k ((j, v) ∷ m) = if j == k then some v else lookup k m

unfoldable pub put : {V : Type 0} → String → V → List (String × V) → List (String × V)
put k v [] = (k, v) ∷ []
put k v ((j, w) ∷ m) = if j == k then (k, v) ∷ m else (j, w) ∷ put k v m

unfoldable pub remove : {V : Type 0} → String → List (String × V) → List (String × V)
remove k [] = []
remove k ((j, v) ∷ m) = let rest = remove k m in if j == k then rest else (j, v) ∷ rest

-- `repositories.entry(key).or_default()`: the entry, which is made where it is missing.
abbrev pub or_default : Option RepositoryLeaseState → RepositoryLeaseState
or_default none = empty_state
or_default (some state) = state

-- A refusal leaves the default entry behind, so the manager comes back beside it.
unfoldable pub try_acquire_repository :
    String → Bool → JobManager → JobManager × Result LeaseError RepositoryLease
try_acquire_repository key exclusive s =
    let state = or_default (lookup key s.repositories) in
    let entered : JobManager = record s { repositories = put key state s.repositories } in
    if state.writer || (exclusive && ltb 0 state.readers)
    then (entered, err incompatible)
    else if exclusive
    then (
      record s { repositories = put key (record state { writer = true }) s.repositories },
      ok (record { key = key; exclusive = true }),
    )
    else if ltb (state.readers + 1) usize_mod
    then (
      record s {
        repositories = put key (record state { readers = state.readers + 1 }) s.repositories;
      },
      ok (record { key = key; exclusive = false }),
    )
    else (entered, err reader_overflow)

abbrev pub try_acquire_repository_shared :
    String → JobManager → JobManager × Result LeaseError RepositoryLease
try_acquire_repository_shared key = try_acquire_repository key false

abbrev pub try_acquire_repository_exclusive :
    String → JobManager → JobManager × Result LeaseError RepositoryLease
try_acquire_repository_exclusive key = try_acquire_repository key true

-- What dropping a lease leaves of the state; `saturating_sub` is the subtraction of ℕ.
abbrev pub dropped : Bool → RepositoryLeaseState → RepositoryLeaseState
dropped exclusive state =
    if exclusive
    then record state { writer = false }
    else record state { readers = state.readers - 1 }

-- `Drop for RepositoryLease`
unfoldable pub drop_repository : RepositoryLease → JobManager → JobManager
drop_repository lease s = elim (lookup lease.key s.repositories) [
  | none ↦ s
  | some state ↦
      let after = dropped lease.exclusive state in
      if not after.writer && eqb after.readers 0
      then record s { repositories = remove lease.key s.repositories }
      else record s { repositories = put lease.key after s.repositories }
]

-- The leases of `start_home_repository_shared` and `start_home_repository_exclusive`. A path is `none` where
-- the operating system could not normalise it. On each early return the home lease that was taken is dropped.
unfoldable pub acquire_home_and_repository :
    Option String
    → Option String
    → Bool
    → JobManager
    → JobManager × Result LeaseError RepositoryLease
acquire_home_and_repository none repository exclusive s = (s, err not_normalized)
acquire_home_and_repository (some home) repository exclusive s =
    elim (try_acquire_codex_home home s) [
      | err e ↦ (s, err e)
      | ok t ↦ elim repository [
        | none ↦ (drop_codex_home home t, err not_normalized)
        | some key ↦
            let (u, result) = try_acquire_repository key exclusive t in
            elim result [ ok lease ↦ (u, ok lease) | err e ↦ (drop_codex_home home u, err e) ]
      ]
    ]
