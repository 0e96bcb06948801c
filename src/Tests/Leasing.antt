-- ===== src/Tests/Leasing.antt =====
-- The leases and jobs of apps/desktop/src-tauri/src/jobs.rs at concrete inputs.
use codex_session_sync.Prelude.{
  [], contains, err, false, filter, is_some, none, ok, refl, some, true, ◌+◌, ◌<◌, ◌↔◌, ◌∷◌, ◌≡◌,
  nat_eq, string_eq, option_eq,
}
use codex_session_sync.Jobs.Leases.{
  drop_codex_home, try_acquire_codex_home, acquire_home_and_repository, remove, or_default,
  incompatible, RepositoryLease, JobManager, try_acquire_repository, lookup, put,
}
use codex_session_sync.Jobs.Registry.{shared, exclusive}
use codex_session_sync.Jobs.Exclusion.{leases-AreExclusive}
use codex_session_sync.Jobs.Worlds.{at_start, next, acquire, started, World}
use codex_session_sync.Jobs.Settled.{
  set_runs, is_running, was_asked, quiet, Desk, Leads, begin, then_move, starts, finishes,
}
use codex_session_sync.Jobs.Homes.{Starts, acquire_home_and_repository_lem}
use codex_session_sync.Jobs.Ends.{take_result-result_ready, cancel-refused_at_end}
use codex_session_sync.Jobs.Life.{
  start, not_completed, initial, finished, not_cancellable, with_entry, take_result, JobEntry,
  cancel, Value, finish, returned,
}

abbrev locked : JobManager
locked = record {
  active_codex_homes = [];
  repositories = ("repo", record { readers = 0; writer = true }) ∷ [];
}

abbrev writer : RepositoryLease
writer = record { key = "repo"; exclusive = true }

abbrev one_writer : World
one_writer = record { manager = locked; held = writer ∷ [] }

takes_writer : try_acquire_repository "repo" true started.manager ≡ (locked, ok writer)
unfolding try_acquire_repository lookup put
takes_writer = refl

refuses_reader : (try_acquire_repository "repo" false locked).1 ≡ err incompatible
unfolding try_acquire_repository lookup put
refuses_reader = refl

leases-AreExclusive_example :
    (0 < exclusive "repo" one_writer.held
      → (exclusive "repo" one_writer.held ≡ 1) × (shared "repo" one_writer.held ≡ 0))
    × ((lookup "repo" one_writer.manager.repositories ≡ none)
        ↔ (shared "repo" one_writer.held + exclusive "repo" one_writer.held ≡ 0))
    × ((or_default (lookup "repo" one_writer.manager.repositories)).readers
        ≡ shared "repo" one_writer.held)
leases-AreExclusive_example =
    leases-AreExclusive one_writer "repo"
      (next at_start (acquire started "repo" true locked writer takes_writer))

abbrev entry : JobEntry
entry = finished (returned "42") (initial "job" "push" true)

abbrev done_desk : Desk
done_desk = record {
  jobs = finish "job" (returned "42") (start "job" "push" true []);
  runs = set_runs "job" false (set_runs "job" true (λ id. false));
}

done-Leads : Leads done_desk
unfolding lookup
done-Leads = then_move (then_move begin (starts quiet "job" "push" true refl refl)) (
    finishes (record { jobs = start "job" "push" true []; runs = set_runs "job" true quiet.runs })
      "job" (returned "42") refl)

done_found : lookup "job" done_desk.jobs ≡ some entry
unfolding lookup finish with_entry start put
done_found = refl

cancel-refused_at_end_example :
    (done_desk.runs "job" ≡ false
      → cancel "job" done_desk.jobs ≡ (done_desk.jobs, err not_cancellable))
    × (was_asked entry.snapshot.state ≡ true → entry.cancel ≡ true)
    × (entry.cancel ≡ true → is_running entry.snapshot.state ≡ false)
    × (done_desk.runs "job" ≡ false
        → is_some entry.result ≡ false
        → is_some entry.snapshot.error ≡ true)
cancel-refused_at_end_example = cancel-refused_at_end done_desk "job" entry done-Leads done_found

take_result-result_ready_example :
    (entry.snapshot.result_ready ≡ true
      → (done_desk.runs "job" ≡ false)
        × ((v : Value) × (entry.result ≡ some v)
            × (take_result "job" done_desk.jobs ≡ (remove "job" done_desk.jobs, ok v))))
    × (entry.snapshot.result_ready ≡ false
        → take_result "job" done_desk.jobs ≡ (done_desk.jobs, err not_completed))
take_result-result_ready_example =
    take_result-result_ready done_desk "job" entry done-Leads done_found

abbrev free : JobManager
free = record { active_codex_homes = []; repositories = [] }

abbrev home_and_writer : JobManager
home_and_writer = record locked { active_codex_homes = "home" ∷ [] }

takes_both :
    acquire_home_and_repository (some "home") (some "repo") true free ≡ (home_and_writer, ok writer)
unfolding acquire_home_and_repository try_acquire_codex_home try_acquire_repository lookup put
    contains
takes_both = refl

refuses_both :
    acquire_home_and_repository (some "home") (some "repo") false locked
    ≡ (locked, err incompatible)
unfolding acquire_home_and_repository try_acquire_codex_home try_acquire_repository lookup put
    contains drop_codex_home filter
refuses_both = refl

acquire_home_and_repository_lem_example :
    Starts
      (some "home")
      (some "repo")
      true
      free
      (acquire_home_and_repository (some "home") (some "repo") true free)
acquire_home_and_repository_lem_example =
    acquire_home_and_repository_lem (some "home") (some "repo") true free
