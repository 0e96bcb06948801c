-- ===== src/Jobs/Life.antt =====
-- The background jobs of apps/desktop/src-tauri/src/jobs.rs, from `start` to `take_result`. The table of
-- jobs stands behind a mutex, so one call, one report and the end of an operation are one step each. A
-- job's `cancel` flag, which its operation shares, is a field of its entry.
use codex_session_sync.Prelude.{
  Bool, List, Option, Result, String, err, false, if◌then◌else◌, none, not, ok, ok_or, some, true,
  ℕ, nat_eq, string_eq, option_eq,
}
use codex_session_sync.Jobs.Leases.{lookup, put, remove}

pub record OperationProgress : Type 0 where
  pub phase : String
  pub message : String
  pub completed : ℕ
  pub total : Option ℕ
  pub unit : String
  pub cancellable : Bool

pub data JobState : Type 0 where
  running cancelling completed failed cancelled : JobState

pub record JobSnapshot : Type 0 where
  pub job_id : String
  pub kind : String
  pub state : JobState
  pub progress : OperationProgress
  pub cancellable : Bool
  pub result_ready : Bool
  pub error : Option String

-- `serde_json::Value`, as its text
abbrev pub Value : Type 0
Value = String

pub record JobEntry : Type 0 where
  pub cancel : Bool
  pub snapshot : JobSnapshot
  pub result : Option Value

abbrev pub Jobs : Type 0
Jobs = List (String × JobEntry)

pub data JobError : Type 0 where
  not_found not_cancellable not_completed already_taken : JobError

-- How an operation ends: with a value, with one that `serde_json::to_value` refuses, or with an error.
pub data Outcome : Type 0 where
  returned : Value → Outcome
  unserializable raised : String → Outcome

unfoldable pub initial : String → String → Bool → JobEntry
initial id kind cancellable = record {
  cancel = false;
  snapshot = record {
    job_id = id;
    kind = kind;
    state = running;
    progress = record {
      phase = "queued";
      message = "任务正在准备";
      completed = 0;
      total = none;
      unit = "items";
      cancellable = true;
    };
    cancellable = cancellable;
    result_ready = false;
    error = none;
  };
  result = none;
}

unfoldable pub start : String → String → Bool → Jobs → Jobs
start id kind cancellable jobs = put id (initial id kind cancellable) jobs

-- `get_mut`, and a write through the reference
unfoldable pub with_entry : String → (JobEntry → JobEntry) → Jobs → Jobs
with_entry id change jobs = elim (lookup id jobs) [
  | none ↦ jobs
  | some entry ↦ put id (change entry) jobs
]

-- The closure that `OperationControl` calls.
unfoldable pub reported : OperationProgress → JobEntry → JobEntry
reported progress entry = record entry {
  snapshot = record entry.snapshot { cancellable = progress.cancellable; progress = progress };
}

unfoldable pub report : String → OperationProgress → Jobs → Jobs
report id progress = with_entry id (reported progress)

-- What the task that ran the operation writes at its end.
unfoldable pub finished : Outcome → JobEntry → JobEntry
finished (returned value) entry = record entry {
  snapshot = record entry.snapshot {
    state = completed;
    progress = record {
      phase = "completed";
      message = "任务已完成";
      completed = 1;
      total = some 1;
      unit = "tasks";
      cancellable = false;
    };
    cancellable = false;
    result_ready = true;
  };
  result = some value;
}
finished (unserializable e) entry = record entry {
  snapshot = record entry.snapshot { state = failed; error = some e; cancellable = false };
}
finished (raised e) entry = record entry {
  snapshot = record entry.snapshot {
    state = if entry.cancel then cancelled else failed;
    error = some e;
    cancellable = false;
  };
}

unfoldable pub finish : String → Outcome → Jobs → Jobs
finish id outcome = with_entry id (finished outcome)

unfoldable pub get_snapshot : String → Jobs → Option JobSnapshot
get_snapshot id jobs = elim (lookup id jobs) [ none ↦ none | some entry ↦ some entry.snapshot ]

unfoldable pub requested : JobEntry → JobEntry
requested entry = record entry {
  cancel = true;
  snapshot = record entry.snapshot {
    state = cancelling;
    progress = record entry.snapshot.progress { message = "已请求取消，正在到达安全停止点" };
  };
}

unfoldable pub cancel : String → Jobs → Jobs × Result JobError JobSnapshot
cancel id jobs = elim (lookup id jobs) [
  | none ↦ (jobs, err not_found)
  | some entry ↦
      if not entry.snapshot.cancellable
      then (jobs, err not_cancellable)
      else (put id (requested entry) jobs, ok (requested entry).snapshot)
]

unfoldable pub is_completed : JobState → Bool
is_completed completed = true
is_completed running = false
is_completed cancelling = false
is_completed failed = false
is_completed cancelled = false

unfoldable pub take_result : String → Jobs → Jobs × Result JobError Value
take_result id jobs = elim (lookup id jobs) [
  | none ↦ (jobs, err not_found)
  | some entry ↦
      if not (is_completed entry.snapshot.state)
      then (jobs, err not_completed)
      else (remove id jobs, ok_or entry.result already_taken)
]
