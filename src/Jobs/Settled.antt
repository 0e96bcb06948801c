-- ===== src/Jobs/Settled.antt =====
-- The life of a job of apps/desktop/src-tauri/src/jobs.rs: a request to cancel, a report, the end of the
-- operation and the taking of its result, in any order that the threads can bring about.
use codex_session_sync.Prelude.{
  Bool, String, [], arith, false, if◌then◌else◌, is_some, none, not, refl, some, true, ◌&&◌, ◌==◌,
  ◌≡◌, nat_eq, string_eq, option_eq,
}
use codex_session_sync.Jobs.Life.{
  raised, take_result, cancel, unserializable, finish, returned, report, Outcome, is_completed,
  start, OperationProgress, initial, finished, reported, JobState, Jobs, JobEntry, requested,
}
use codex_session_sync.Jobs.Life.{running, cancelling, completed, failed, cancelled, is_completed}
use codex_session_sync.Jobs.Leases.{lookup}

-- The jobs, and whether the operation of an id still runs.
pub record Desk : Type 0 where
  pub jobs : Jobs
  pub runs : String → Bool

abbrev pub quiet : Desk
quiet = record { jobs = []; runs = λ id. false }

abbrev pub set_runs : String → Bool → (String → Bool) → String → Bool
set_runs id b runs j = if id == j then b else runs j

-- `Uuid::now_v7` gives an id that was not used before; an operation reports while it runs, and ends once.
pub data Move : Desk → Desk → Type 0 where
  starts :
      (d : Desk) (id : String) (kind : String) (cancellable : Bool)
      → lookup id d.jobs ≡ none
      → d.runs id ≡ false
      → Move d (record { jobs = start id kind cancellable d.jobs; runs = set_runs id true d.runs })
  reports :
      (d : Desk) (id : String) (progress : OperationProgress)
      → d.runs id ≡ true
      → Move d (record { jobs = report id progress d.jobs; runs = d.runs })
  finishes :
      (d : Desk) (id : String) (outcome : Outcome)
      → d.runs id ≡ true
      → Move d (record { jobs = finish id outcome d.jobs; runs = set_runs id false d.runs })
  cancels :
      (d : Desk) (id : String) → Move d (record { jobs = (cancel id d.jobs).0; runs = d.runs })
  takes :
      (d : Desk) (id : String) → Move d (record { jobs = (take_result id d.jobs).0; runs = d.runs })

pub data Leads : Desk → Type 0 where
  begin : Leads quiet
  then_move : {c d : Desk} → Leads c → Move c d → Leads d

unfoldable pub is_running : JobState → Bool
is_running running = true
is_running cancelling = false
is_running completed = false
is_running failed = false
is_running cancelled = false

-- The states of a job whose operation has not ended.
unfoldable pub is_live : JobState → Bool
is_live running = true
is_live cancelling = true
is_live completed = false
is_live failed = false
is_live cancelled = false

-- The states that only a request to cancel leads to.
unfoldable pub was_asked : JobState → Bool
was_asked running = false
was_asked cancelling = true
was_asked completed = false
was_asked failed = false
was_asked cancelled = true

pub record Settles (e : JobEntry) (runs : Bool) : Type 0 where
  pub live : is_live e.snapshot.state ≡ runs
  pub asked : was_asked e.snapshot.state ≡ true → e.cancel ≡ true
  pub unasked : e.cancel ≡ true → is_running e.snapshot.state ≡ false
  pub closed : runs ≡ false → e.snapshot.cancellable ≡ false
  pub ready : e.snapshot.result_ready ≡ is_completed e.snapshot.state
  pub value : is_some e.result ≡ is_completed e.snapshot.state
  pub reason :
      is_some e.snapshot.error
      ≡ (not (is_live e.snapshot.state) && not (is_completed e.snapshot.state))

pub initial-Settles :
    (id kind : String) (cancellable : Bool) → Settles (initial id kind cancellable) true
unfolding initial is_running is_live was_asked is_completed
initial-Settles id kind cancellable = record {
  live = refl;
  asked = λ h. ground arith;
  unasked = λ h. ground arith;
  closed = λ h. ground arith;
  ready = refl;
  value = refl;
  reason = refl;
}

pub reported-Settles :
    (p : OperationProgress) (e : JobEntry) → Settles e true → Settles (reported p e) true
unfolding reported
reported-Settles p e t = record {
  live = t.live;
  asked = t.asked;
  unasked = t.unasked;
  closed = λ h. ground arith;
  ready = t.ready;
  value = t.value;
  reason = t.reason;
}

pub finished-Settles : (o : Outcome) (e : JobEntry) → Settles e true → Settles (finished o e) false
unfolding finished is_running is_live was_asked is_completed
finished-Settles (returned v) e t = record {
  live = refl;
  asked = λ h. ground arith;
  unasked = λ h. refl;
  closed = λ h. refl;
  ready = refl;
  value = refl;
  reason = ground (arith, t.reason, t.live);
}
finished-Settles (unserializable x) e t = record {
  live = refl;
  asked = λ h. ground arith;
  unasked = λ h. refl;
  closed = λ h. refl;
  ready = ground (arith, t.ready, t.live);
  value = ground (arith, t.value, t.live);
  reason = refl;
}
finished-Settles (raised x) e t = record {
  live = ground arith;
  asked = λ h. ground arith;
  unasked = λ h. ground arith;
  closed = λ h. refl;
  ready = ground (arith, t.ready, t.live);
  value = ground (arith, t.value, t.live);
  reason = ground arith;
}

pub requested-Settles :
    (e : JobEntry) (runs : Bool)
    → Settles e runs
    → e.snapshot.cancellable ≡ true
    → Settles (requested e) runs
unfolding requested is_running is_live was_asked is_completed
requested-Settles e runs t c = record {
  live = ground (arith, t.closed);
  asked = λ h. refl;
  unasked = λ h. refl;
  closed = t.closed;
  ready = ground (arith, t.ready, t.live, t.closed);
  value = ground (arith, t.value, t.live, t.closed);
  reason = ground (arith, t.reason, t.live, t.closed);
}

pub record AreSettled (d : Desk) : Type 0 where
  pub at : (id : String) (e : JobEntry) → lookup id d.jobs ≡ some e → Settles e (d.runs id)
