-- ===== src/Jobs/Worlds.antt =====
-- The threads of apps/desktop/src-tauri/src/jobs.rs that take and drop repository leases, as steps.
use codex_session_sync.Prelude.{
  Bool, List, String, [], err, ok, ◌++◌, ◌∷◌, ◌≡◌, nat_eq, string_eq, option_eq,
}
use codex_session_sync.Jobs.Registry.{exclusive, shared, Tally}
use codex_session_sync.Jobs.Leases.{
  lookup, drop_repository, try_acquire_repository, JobManager, RepositoryLease, LeaseError,
}

-- The registry, and the leases that are held.
pub record World : Type 0 where
  pub manager : JobManager
  pub held : List RepositoryLease

abbrev pub started : World
started = record { manager = record { active_codex_homes = []; repositories = [] }; held = [] }

pub data Step : World → World → Type 0 where
  acquire :
      (w : World) (key : String) (exclusive : Bool) (m : JobManager) (l : RepositoryLease)
      → try_acquire_repository key exclusive w.manager ≡ (m, ok l)
      → Step w (record { manager = m; held = l ∷ w.held })
  refuse :
      (w : World) (key : String) (exclusive : Bool) (m : JobManager) (e : LeaseError)
      → try_acquire_repository key exclusive w.manager ≡ (m, err e)
      → Step w (record { manager = m; held = w.held })
  release :
      (m : JobManager) (before after : List RepositoryLease) (l : RepositoryLease)
      → Step
          (record { manager = m; held = before ++ l ∷ after })
          (record { manager = drop_repository l m; held = before ++ after })

pub data Reach : World → Type 0 where
  at_start : Reach started
  next : {v w : World} → Reach v → Step v w → Reach w

pub record IsTallied (w : World) : Type 0 where
  pub at :
      (k : String) → Tally (lookup k w.manager.repositories) (shared k w.held) (exclusive k w.held)
