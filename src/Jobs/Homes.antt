-- ===== src/Jobs/Homes.antt =====
-- A job that writes a Codex home takes the home and the repository, apps/desktop/src-tauri/src/jobs.rs:
-- both, or neither.
use codex_session_sync.Prelude.{
  ==_refl, Bool, Bool-cases, List, Option, Result, String, [], ap, arith, contains, eq_iff, err,
  false, filter, if_false, if_true, if◌then◌else◌, inl, inr, none, not, ok, or_left, refl, some,
  sym, true, ◌+◌, ◌<◌, ◌==◌, ◌∙◌, ◌∷◌, ◌≡◌, ◌≤◌, ◌⊎◌, nat_eq, string_eq, option_eq,
}
use codex_session_sync.Jobs.Registry.{lookup-put}
use codex_session_sync.Jobs.Tallies.{
  refuse-lookup, try_acquire_repository-Acquired, taken, Acquired,
}
use codex_session_sync.Jobs.Leases.{
  usize_mod, not_normalized, lookup, or_default, home_busy, RepositoryLease, LeaseError, JobManager,
  try_acquire_repository, try_acquire_codex_home, drop_codex_home, acquire_home_and_repository,
}
use codex_session_sync.Jobs.Leases.{not_normalized, incompatible, reader_overflow}

filter-absent :
    (key : String) (homes : List String)
    → contains homes key ≡ false
    → filter (λ k. not (k == key)) homes ≡ homes
unfolding contains filter
filter-absent key [] h = refl
filter-absent key (k ∷ homes) h = ground (arith, filter-absent key homes)

contains-dropped :
    (key other : String) (homes : List String)
    → contains homes key ≡ false
    → contains (filter (λ k. not (k == key)) (key ∷ homes)) other ≡ contains homes other
unfolding contains filter
contains-dropped key other homes h =
    rw (==_refl key) (ap (λ hs. contains hs other) (filter-absent key homes h))

-- What the call for the repository leaves of the homes.
try_acquire_repository-homes :
    (s : JobManager) (key : String) (excl : Bool)
    → (try_acquire_repository key excl s).0.active_codex_homes ≡ s.active_codex_homes
unfolding try_acquire_repository
try_acquire_repository-homes s key excl = ground arith

contains-head : (home : String) (homes : List String) → contains (home ∷ homes) home ≡ true
unfolding contains
contains-head home homes = or_left _ _ (==_refl home)

contains-taken :
    (home other : String) (homes : List String)
    → (home == other) ≡ false
    → contains (home ∷ homes) other ≡ contains homes other
unfolding contains
contains-taken home other homes n = ground (arith, eq_iff home other, eq_iff other home)

-- A start is given both leases, or refused.
module _ (home repository : Option String) (excl : Bool) (s : JobManager) where
  pub record Takes (t : JobManager) (lease : RepositoryLease) : Type 0 where
    pub home_key : String
    pub repository_key : String
    pub home_normal : home ≡ some home_key
    pub repository_normal : repository ≡ some repository_key
    pub was_free : contains s.active_codex_homes home_key ≡ false
    pub is_taken : contains t.active_codex_homes home_key ≡ true
    pub other_homes :
        (other : String)
        → (home_key == other) ≡ false
        → contains t.active_codex_homes other ≡ contains s.active_codex_homes other
    pub is_lease : lease ≡ record { key = repository_key; exclusive = excl }
    pub no_writer : (or_default (lookup repository_key s.repositories)).writer ≡ false
    pub no_reader : excl ≡ true → (or_default (lookup repository_key s.repositories)).readers ≡ 0
    pub is_recorded :
        lookup repository_key t.repositories
        ≡ some (taken excl (or_default (lookup repository_key s.repositories)))
    pub other_repositories :
        (other : String)
        → (repository_key == other) ≡ false
        → lookup other t.repositories ≡ lookup other s.repositories

  pub record Leaves (t : JobManager) : Type 0 where
    pub homes_same :
        (other : String) → contains t.active_codex_homes other ≡ contains s.active_codex_homes other
    pub repositories_same :
        (other : String) → lookup other t.repositories ≡ lookup other s.repositories

  -- Why a start is refused.
  abbrev pub Refused : LeaseError → Type 0
  Refused not_normalized = (home ≡ none) ⊎ (repository ≡ none)
  Refused home_busy =
      (key : String) × (home ≡ some key) × (contains s.active_codex_homes key ≡ true)
  Refused incompatible =
      (key : String) × (repository ≡ some key)
      × (((or_default (lookup key s.repositories)).writer ≡ true)
          ⊎ ((excl ≡ true) × (0 < (or_default (lookup key s.repositories)).readers)))
  Refused reader_overflow =
      (key : String) × (repository ≡ some key)
      × (excl ≡ false)
      × (usize_mod ≤ (or_default (lookup key s.repositories)).readers + 1)

  abbrev pub Starts : JobManager × Result LeaseError RepositoryLease → Type 0
  Starts (t, ok lease) = Takes t lease
  Starts (t, err e) = Leaves t × Refused e

abbrev with_home : String → JobManager → JobManager
with_home home s = record s { active_codex_homes = home ∷ s.active_codex_homes }

-- Why a call for the repository is refused.
Refused-why :
    (home : String) (s u : JobManager) (key : String) (excl : Bool) (e : LeaseError)
    → try_acquire_repository key excl (with_home home s) ≡ (u, err e)
    → Refused (some home) (some key) excl s e
unfolding try_acquire_repository
Refused-why home s u key excl not_normalized h = absurd (ground arith)
Refused-why home s u key excl home_busy h = absurd (ground arith)
Refused-why home s u key excl incompatible h = (
  key,
  refl,
  elim (Bool-cases (or_default (lookup key s.repositories)).writer) [
    | inl writer ↦ inl writer
    | inr no_writer ↦ inr (ground arith, ground arith)
  ],
)
Refused-why home s u key excl reader_overflow h = (key, refl, ground arith, ground arith)

module _ (home repository : String) (excl : Bool) (s : JobManager)
    (free : contains s.active_codex_homes home ≡ false) where
  Leaves-dropped :
      (repository : Option String) (u : JobManager)
      → u.active_codex_homes ≡ home ∷ s.active_codex_homes
      → ((other : String) → lookup other u.repositories ≡ lookup other s.repositories)
      → Leaves (some home) repository excl s (drop_codex_home home u)
  unfolding drop_codex_home
  Leaves-dropped repository u e k = record {
    homes_same = λ other.
        ap (λ hs. contains (filter (λ k. not (k == home)) hs) other) e
        ∙ contains-dropped home other s.active_codex_homes free;
    repositories_same = k;
  }

  both_taken :
      (u : JobManager) (lease : RepositoryLease)
      → u.active_codex_homes ≡ home ∷ s.active_codex_homes
      → Acquired (with_home home s) u repository excl lease
      → Takes (some home) (some repository) excl s u lease
  both_taken u lease e a =
      let entry = or_default (lookup repository s.repositories) in
      let at = λ (other : String).
        ap (lookup other) a.written
        ∙ lookup-put repository other (taken excl entry) s.repositories in
      record {
        home_key = home;
        repository_key = repository;
        home_normal = refl;
        repository_normal = refl;
        was_free = free;
        is_taken = ap (λ hs. contains hs home) e ∙ contains-head home s.active_codex_homes;
        other_homes = λ other n.
            ap (λ hs. contains hs other) e ∙ contains-taken home other s.active_codex_homes n;
        is_lease = a.is_lease;
        no_writer = a.no_writer;
        no_reader = a.no_reader;
        is_recorded = at repository ∙ if_true _ _ (==_refl repository);
        other_repositories = λ other n. at other ∙ if_false _ _ n;
      }

  -- What the call for the repository does once the home is taken.
  both_or_refused :
      (u : JobManager) (result : Result LeaseError RepositoryLease)
      → try_acquire_repository repository excl (with_home home s) ≡ (u, result)
      → Starts
          (some home)
          (some repository)
          excl
          s
          (elim result [ ok lease ↦ (u, ok lease) | err e ↦ (drop_codex_home home u, err e) ])
  both_or_refused u (ok lease) h =
      both_taken u lease
        (ap (λ (r : JobManager × Result LeaseError RepositoryLease). r.0.active_codex_homes) (sym h)
          ∙ try_acquire_repository-homes (with_home home s) repository excl)
        (try_acquire_repository-Acquired (with_home home s) u repository excl lease h)
  both_or_refused u (err e) h = (
    Leaves-dropped (some repository) u
        (ap (λ (r : JobManager × Result LeaseError RepositoryLease). r.0.active_codex_homes) (sym h)
          ∙ try_acquire_repository-homes (with_home home s) repository excl)
        (λ other. refuse-lookup (with_home home s) u repository excl e other h),
    Refused-why home s u repository excl e h,
  )

at_repository :
    (home : String) (repository : Option String) (excl : Bool) (s : JobManager)
    (free : contains s.active_codex_homes home ≡ false)
    → Starts (some home) repository excl s (elim repository [
      | none ↦ (drop_codex_home home (with_home home s), err not_normalized)
      | some key ↦
          let (u, result) = try_acquire_repository key excl (with_home home s) in
          elim result [ ok lease ↦ (u, ok lease) | err e ↦ (drop_codex_home home u, err e) ]
    ])
at_repository home none excl s free =
    (Leaves-dropped home "" excl s free none _ refl (λ other. refl), inr refl)
at_repository home (some key) excl s free = both_or_refused home key excl s free _ _ refl

at_home :
    (home : String) (repository : Option String) (excl : Bool) (s : JobManager) (busy : Bool)
    → contains s.active_codex_homes home ≡ busy
    → Starts
        (some home)
        repository
        excl
        s
        (elim (if busy then err home_busy else ok (with_home home s)) [
          | err e ↦ (s, err e)
          | ok t ↦ elim repository [
            | none ↦ (drop_codex_home home t, err not_normalized)
            | some key ↦
                let (u, result) = try_acquire_repository key excl t in
                elim result [ ok lease ↦ (u, ok lease) | err e ↦ (drop_codex_home home u, err e) ]
          ]
        ])
at_home home repository excl s true busy =
    (record { homes_same = λ other. refl; repositories_same = λ other. refl }, (home, refl, busy))
at_home home repository excl s false free = at_repository home repository excl s free

-- A start that gives a lease had both paths normalised and found the home free and no lease of the repository
-- that excludes the one asked for; then the home is taken, and the registry has the writer, or one reader
-- more, for the repository, and no other home and no other repository has changed. A start that is refused
-- leaves every home and every repository as it was, and its reason is so: a path was not normalised, the
-- home was taken, there was a writer or, for an exclusive lease, a reader, or the count of readers was full.
pub acquire_home_and_repository_lem :
    (home repository : Option String) (excl : Bool) (s : JobManager)
    → Starts home repository excl s (acquire_home_and_repository home repository excl s)
unfolding acquire_home_and_repository try_acquire_codex_home
acquire_home_and_repository_lem none repository excl s =
    (record { homes_same = λ other. refl; repositories_same = λ other. refl }, inl refl)
acquire_home_and_repository_lem (some home) repository excl s =
    at_home home repository excl s (contains s.active_codex_homes home) refl
