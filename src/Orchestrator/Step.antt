-- ===== src/Orchestrator/Step.antt =====
-- apps/orchestrator/src/domain/step.py.
pub mod Lifecycle
pub mod Moves
use keviq_core.Prelude.{
  ℕ, String, Bool, true, false, not, Option, none, some, or_else, overwrite, ltb, if◌then◌else◌,
}
use keviq_core.Errors.{
  domain_validation, invalid_transition, Result, ok, err, ◌>>=◌, ◌>>◌, raise_if,
}
use keviq_core.Machine.{Machine, fire}
use keviq_core.Orchestrator.Task.{Dict}

pub data StepType : Type 0 where
  agent_invocation tool_call approval_gate condition transform : StepType

pub data StepStatus : Type 0 where
  pending running waiting_approval blocked completed failed skipped cancelled : StepStatus

-- `.value`
abbrev pub value : StepStatus → String
value pending = "pending"
value running = "running"
value waiting_approval = "waiting_approval"
value blocked = "blocked"
value completed = "completed"
value failed = "failed"
value skipped = "skipped"
value cancelled = "cancelled"

-- `_STEP_TRANSITIONS`
abbrev pub step_transitions : StepStatus → StepStatus → Bool
step_transitions pending running = true
step_transitions pending skipped = true
step_transitions pending cancelled = true
step_transitions running waiting_approval = true
step_transitions running blocked = true
step_transitions running completed = true
step_transitions running failed = true
step_transitions running cancelled = true
step_transitions waiting_approval running = true
step_transitions waiting_approval cancelled = true
step_transitions blocked running = true
step_transitions blocked failed = true
step_transitions blocked cancelled = true
step_transitions _ _ = false

-- `_STEP_TERMINAL`
abbrev pub step_terminal : StepStatus → Bool
step_terminal completed = true
step_terminal failed = true
step_terminal skipped = true
step_terminal cancelled = true
step_terminal _ = false

abbrev pub step_machine : Machine StepStatus
step_machine = record { is_terminal = step_terminal; allowed = step_transitions }

pub record Step : Type 0 where
  pub id : ℕ
  pub run_id : ℕ
  pub workspace_id : ℕ
  pub step_type : StepType
  pub step_status : StepStatus
  pub sequence : ℕ
  pub parent_step_id : Option ℕ
  pub input_snapshot : Option Dict
  pub output_snapshot : Option Dict
  pub started_at : Option ℕ
  pub completed_at : Option ℕ
  pub error_detail : Option Dict
  pub created_at : ℕ
  pub updated_at : ℕ

-- `Step(run_id=…, workspace_id=…, sequence=…, step_type=…)`, every other argument left out.
unfoldable pub new : (fresh now run_id workspace_id sequence : ℕ) → StepType → Result Step
new fresh now run_id workspace_id sequence step_type = do
  raise_if (ltb sequence 1) domain_validation
  ok (record {
    id = fresh;
    run_id = run_id;
    workspace_id = workspace_id;
    step_type = step_type;
    step_status = pending;
    sequence = sequence;
    parent_step_id = none;
    input_snapshot = none;
    output_snapshot = none;
    started_at = none;
    completed_at = none;
    error_detail = none;
    created_at = now;
    updated_at = now;
  })

-- `Step(…)` over a stored row: every column is kept, and the check is made again.
unfoldable pub reload : Step → Result Step
reload s = do raise_if (ltb s.sequence 1) domain_validation; ok s

-- `Step._transition`
unfoldable pub transition : StepStatus → ℕ → Step → Result (StepStatus × Step)
unfolding fire
transition target now s = do
  status ← fire step_machine s.step_status target
  ok (s.step_status, record s { step_status = status; updated_at = now })

abbrev pub is_pending : StepStatus → Bool
is_pending pending = true
is_pending _ = false

abbrev pub is_waiting : StepStatus → Bool
is_waiting waiting_approval = true
is_waiting _ = false

abbrev pub is_blocked : StepStatus → Bool
is_blocked blocked = true
is_blocked _ = false

unfoldable pub start : Option Dict → (now now' : ℕ) → Step → Result (StepStatus × Step)
unfolding transition
start input_snapshot now now' s = do
  raise_if (not (is_pending s.step_status)) invalid_transition
  (prev, s') ← transition running now s
  ok (
    prev,
    record s' {
      started_at = some now';
      input_snapshot = overwrite input_snapshot s'.input_snapshot;
    },
  )

unfoldable pub complete : Dict → (now now' : ℕ) → Step → Result (StepStatus × Step)
unfolding transition
complete output_snapshot now now' s = do
  (prev, s') ← transition completed now s
  ok (prev, record s' { completed_at = some now'; output_snapshot = some output_snapshot })

unfoldable pub fail : Option Dict → (now now' : ℕ) → Step → Result (StepStatus × Step)
unfolding transition
fail error_detail now now' s = do
  (prev, s') ← transition failed now s
  ok (
    prev,
    record s' { completed_at = some now'; error_detail = overwrite error_detail s'.error_detail },
  )

unfoldable pub skip : (now now' : ℕ) → Step → Result (StepStatus × Step)
unfolding transition
skip now now' s = do
  (prev, s') ← transition skipped now s
  ok (prev, record s' { completed_at = some now' })

unfoldable pub cancel : (now now' : ℕ) → Step → Result (StepStatus × Step)
unfolding transition
cancel now now' s = do
  (prev, s') ← transition cancelled now s
  ok (prev, record s' { completed_at = some (or_else s'.completed_at now') })

unfoldable pub request_approval : ℕ → Step → Result (StepStatus × Step)
unfolding transition
request_approval = transition waiting_approval

unfoldable pub approve : ℕ → Step → Result (StepStatus × Step)
unfolding transition
approve now s = do
  raise_if (not (is_waiting s.step_status)) invalid_transition
  transition running now s

unfoldable pub block : ℕ → Step → Result (StepStatus × Step)
unfolding transition
block = transition blocked

unfoldable pub unblock : ℕ → Step → Result (StepStatus × Step)
unfolding transition
unblock now s = do
  raise_if (not (is_blocked s.step_status)) invalid_transition
  transition running now s

-- `Step.is_active`
abbrev pub is_active : StepStatus → Bool
is_active pending = true
is_active running = true
is_active waiting_approval = true
is_active blocked = true
is_active _ = false
