-- ===== src/Orchestrator/Run.antt =====
-- apps/orchestrator/src/domain/run.py. Times are in microseconds; each `now` is one reading of the
-- clock, in the order of the calls. The float arithmetic of `total_seconds` is taken as exact.
pub mod Timeline
pub mod Lifecycle
pub mod Moves
use keviq_core.Prelude.Doubles
use keviq_core.Prelude.{
  ℕ, ◌-◌, ◌/◌, String, Bool, true, false, not, Option, none, some, List, [], or_else, is_empty,
  if◌then◌else◌,
}
use keviq_core.Errors.{immutable_field, Result, ok, err, ◌>>=◌, ◌>>◌, raise_if}
use keviq_core.Machine.{Machine, fire}
use keviq_core.Orchestrator.Task.{Dict}

pub data RunStatus : Type 0 where
  queued preparing running waiting_approval completing completed failed timed_out : RunStatus
  cancelled : RunStatus

pub data TriggerType : Type 0 where
  manual scheduled event approval : TriggerType

-- `.value`
abbrev pub value : RunStatus → String
value queued = "queued"
value preparing = "preparing"
value running = "running"
value waiting_approval = "waiting_approval"
value completing = "completing"
value completed = "completed"
value failed = "failed"
value timed_out = "timed_out"
value cancelled = "cancelled"

-- `_RUN_TRANSITIONS`
abbrev pub run_transitions : RunStatus → RunStatus → Bool
run_transitions queued preparing = true
run_transitions queued cancelled = true
run_transitions preparing running = true
run_transitions preparing failed = true
run_transitions preparing cancelled = true
run_transitions running waiting_approval = true
run_transitions running completing = true
run_transitions running failed = true
run_transitions running cancelled = true
run_transitions running timed_out = true
run_transitions waiting_approval running = true
run_transitions waiting_approval cancelled = true
run_transitions completing completed = true
run_transitions completing failed = true
run_transitions timed_out cancelled = true
run_transitions _ _ = false

-- `_RUN_TERMINAL`
abbrev pub run_terminal : RunStatus → Bool
run_terminal completed = true
run_terminal failed = true
run_terminal cancelled = true
run_terminal _ = false

abbrev pub run_machine : Machine RunStatus
run_machine = record { is_terminal = run_terminal; allowed = run_transitions }

pub record Run : Type 0 where
  pub id : ℕ
  pub task_id : ℕ
  pub workspace_id : ℕ
  pub run_status : RunStatus
  pub trigger_type : TriggerType
  pub triggered_by_id : Option ℕ
  pub started_at : Option ℕ
  pub completed_at : Option ℕ
  pub duration_ms : Option ℕ
  pub run_config : Dict
  pub error_summary : Option String
  pub created_at : ℕ
  pub updated_at : ℕ
  pub config_locked : Bool

abbrev pub is_queued : RunStatus → Bool
is_queued queued = true
is_queued _ = false

-- `Run(task_id=…, workspace_id=…, trigger_type=…)`, with every other argument left out.
unfoldable pub new : (fresh now task_id workspace_id : ℕ) → TriggerType → Run
new fresh now task_id workspace_id trigger_type = record {
  id = fresh;
  task_id = task_id;
  workspace_id = workspace_id;
  run_status = queued;
  trigger_type = trigger_type;
  triggered_by_id = none;
  started_at = none;
  completed_at = none;
  duration_ms = none;
  run_config = [];
  error_summary = none;
  created_at = now;
  updated_at = now;
  config_locked = false;
}

-- `Run(…)` over a stored row: every column is kept, and the lock is worked out from the status.
unfoldable pub reload : Run → Run
reload r = record r { config_locked = not (is_queued r.run_status) }

-- `_compute_duration`: `max(0, int((end - started_at).total_seconds() * 1000))`, in doubles
unfoldable pub compute_duration : Option ℕ → ℕ → Option ℕ
compute_duration none end_time = none
compute_duration (some started) end_time = some (Doubles.milliseconds (end_time - started))

unfoldable pub update_config : Dict → Run → Result Run
update_config config r = do
  raise_if r.config_locked immutable_field
  ok (record r { run_config = config })

-- `Run._transition`
unfoldable pub transition : RunStatus → ℕ → Run → Result (RunStatus × Run)
unfolding fire
transition target now r = do
  status ← fire run_machine r.run_status target
  ok (r.run_status, record r { run_status = status; updated_at = now })

unfoldable pub prepare : ℕ → Run → Result (RunStatus × Run)
unfolding transition
prepare now r = do
  (prev, r') ← transition preparing now r
  ok (prev, record r' { config_locked = true })

unfoldable pub start : (now now' : ℕ) → Run → Result (RunStatus × Run)
unfolding transition
start now now' r = do
  (prev, r') ← transition running now r
  ok (prev, record r' { started_at = some (or_else r'.started_at now') })

unfoldable pub request_approval : ℕ → Run → Result (RunStatus × Run)
unfolding transition
request_approval = transition waiting_approval

unfoldable pub approve : ℕ → Run → Result (RunStatus × Run)
unfolding transition
approve = transition running

unfoldable pub begin_completing : ℕ → Run → Result (RunStatus × Run)
unfolding transition
begin_completing = transition completing

unfoldable pub complete : (now now' : ℕ) → Run → Result (RunStatus × Run)
unfolding transition compute_duration
complete now now' r = do
  (prev, r') ← transition completed now r
  ok (
    prev,
    record r' { completed_at = some now'; duration_ms = compute_duration r'.started_at now' },
  )

-- `if error_summary: self.error_summary = error_summary`; an empty text counts as none.
abbrev pub summary_or : Option String → Option String → Option String
summary_or none old = old
summary_or (some s) old = if is_empty s then old else some s

unfoldable pub fail : Option String → (now now' : ℕ) → Run → Result (RunStatus × Run)
unfolding transition compute_duration
fail error_summary now now' r = do
  (prev, r') ← transition failed now r
  ok (
    prev,
    record r' {
      completed_at = some now';
      duration_ms = compute_duration r'.started_at now';
      error_summary = summary_or error_summary r'.error_summary;
    },
  )

unfoldable pub cancel : (now now' : ℕ) → Run → Result (RunStatus × Run)
unfolding transition compute_duration
cancel now now' r = do
  (prev, r') ← transition cancelled now r
  let end_time = or_else r'.completed_at now'
  ok (
    prev,
    record r' {
      completed_at = some end_time;
      duration_ms = compute_duration r'.started_at end_time;
    },
  )

unfoldable pub time_out : (now now' : ℕ) → Run → Result (RunStatus × Run)
unfolding transition compute_duration
time_out now now' r = do
  (prev, r') ← transition timed_out now r
  ok (
    prev,
    record r' { completed_at = some now'; duration_ms = compute_duration r'.started_at now' },
  )

-- `Run.is_active`
abbrev pub is_active : RunStatus → Bool
is_active queued = true
is_active preparing = true
is_active running = true
is_active waiting_approval = true
is_active completing = true
is_active _ = false
