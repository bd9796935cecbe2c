-- ===== src/Orchestrator/Task.antt =====
-- apps/orchestrator/src/domain/task.py. A `datetime` is a number of microseconds, a UUID a number,
-- a `dict[str, Any]` a list of keys with their values; `now` is what `datetime.now` returned.
pub mod Lifecycle
pub mod Moves
pub mod Brief
use keviq_core.Prelude.{
  ℕ, String, Bool, true, false, not, ◌&&◌, ◌||◌, Option, none, some, List, [], ◌∷◌, or_else,
  is_some, str_eq, is_blank, if◌then◌else◌,
}
use keviq_core.Errors.{domain_validation, Result, ok, err, ◌>>=◌, ◌>>◌, raise_if}
use keviq_core.Machine.{Machine, fire}

pub data TaskType : Type 0 where
  coding research analysis operation custom : TaskType

pub data TaskStatus : Type 0 where
  draft pending running waiting_approval completed failed cancelled archived : TaskStatus

-- `_TASK_TRANSITIONS`
abbrev pub task_transitions : TaskStatus → TaskStatus → Bool
task_transitions draft pending = true
task_transitions draft cancelled = true
task_transitions pending running = true
task_transitions pending cancelled = true
task_transitions running waiting_approval = true
task_transitions running completed = true
task_transitions running failed = true
task_transitions running cancelled = true
task_transitions waiting_approval running = true
task_transitions waiting_approval cancelled = true
task_transitions completed archived = true
task_transitions failed pending = true
task_transitions failed archived = true
task_transitions cancelled archived = true
task_transitions _ _ = false

-- `_TASK_TERMINAL`
abbrev pub task_terminal : TaskStatus → Bool
task_terminal archived = true
task_terminal _ = false

abbrev pub task_machine : Machine TaskStatus
task_machine = record { is_terminal = task_terminal; allowed = task_transitions }

-- A value of a `dict[str, Any]`; what is deeper than these stands as its printed form.
pub data Value : Type 0 where
  text : String → Value
  uuid number : ℕ → Value
  flag : Bool → Value

abbrev pub Dict : Type 0
Dict = List (String × Value)

pub record Task : Type 0 where
  pub id : ℕ
  pub workspace_id : ℕ
  pub title : String
  pub description : Option String
  pub task_type : TaskType
  pub task_status : TaskStatus
  pub input_config : Dict
  pub repo_snapshot_id : Option ℕ
  pub policy_id : Option ℕ
  pub parent_task_id : Option ℕ
  pub created_by_id : ℕ
  pub created_at : ℕ
  pub updated_at : ℕ
  pub goal : Option String
  pub context : Option String
  pub constraints : Option String
  pub desired_output : Option String
  pub template_id : Option ℕ
  pub agent_template_id : Option ℕ
  pub risk_level : Option String

-- The keyword arguments of `Task(…)`.
pub record TaskArgs : Type 0 where
  pub workspace_id : ℕ
  pub title : String
  pub task_type : TaskType
  pub created_by_id : ℕ
  pub description : Option String
  pub input_config : Option Dict
  pub repo_snapshot_id : Option ℕ
  pub policy_id : Option ℕ
  pub parent_task_id : Option ℕ
  pub goal : Option String
  pub context : Option String
  pub constraints : Option String
  pub desired_output : Option String
  pub template_id : Option ℕ
  pub agent_template_id : Option ℕ
  pub risk_level : Option String
  pub id : Option ℕ
  pub task_status : TaskStatus
  pub created_at : Option ℕ
  pub updated_at : Option ℕ

-- `value in VALID_RISK_LEVELS`
unfoldable pub valid_risk_level : String → Bool
valid_risk_level s = str_eq s "low" || str_eq s "medium" || str_eq s "high"

-- `risk_level and risk_level not in VALID_RISK_LEVELS`
unfoldable pub bad_risk : Option String → Bool
unfolding valid_risk_level
bad_risk none = false
bad_risk (some s) = not (str_eq s "") && not (valid_risk_level s)

-- `not value or not value.strip()`
unfoldable pub is_missing : Option String → Bool
unfolding is_blank
is_missing none = true
is_missing (some s) = is_blank s

-- `Task.__init__`; `fresh` is what `uuid4` returned.
unfoldable pub new : (fresh now : ℕ) → TaskArgs → Result Task
unfolding bad_risk is_blank
new fresh now a = do
  raise_if (is_blank a.title) domain_validation
  raise_if (bad_risk a.risk_level) domain_validation
  ok (record {
    id = or_else a.id fresh;
    workspace_id = a.workspace_id;
    title = a.title;
    description = a.description;
    task_type = a.task_type;
    task_status = a.task_status;
    input_config = or_else a.input_config [];
    repo_snapshot_id = a.repo_snapshot_id;
    policy_id = a.policy_id;
    parent_task_id = a.parent_task_id;
    created_by_id = a.created_by_id;
    created_at = or_else a.created_at now;
    updated_at = or_else a.updated_at now;
    goal = a.goal;
    context = a.context;
    constraints = a.constraints;
    desired_output = a.desired_output;
    template_id = a.template_id;
    agent_template_id = a.agent_template_id;
    risk_level = a.risk_level;
  })

-- `Task(…)` over a stored row: every column is kept, and the checks are made again.
unfoldable pub reload : Task → Result Task
unfolding bad_risk is_blank
reload t = do
  raise_if (is_blank t.title) domain_validation
  raise_if (bad_risk t.risk_level) domain_validation
  ok t

-- `Task._transition`: the previous status, and the task in its new one.
unfoldable pub transition : TaskStatus → ℕ → Task → Result (TaskStatus × Task)
unfolding fire
transition target now t = do
  status ← fire task_machine t.task_status target
  ok (t.task_status, record t { task_status = status; updated_at = now })

unfoldable pub submit : ℕ → Task → Result (TaskStatus × Task)
unfolding transition
submit = transition pending

unfoldable pub start : ℕ → Task → Result (TaskStatus × Task)
unfolding transition
start = transition running

unfoldable pub request_approval : ℕ → Task → Result (TaskStatus × Task)
unfolding transition
request_approval = transition waiting_approval

unfoldable pub approve : ℕ → Task → Result (TaskStatus × Task)
unfolding transition
approve = transition running

unfoldable pub complete : ℕ → Task → Result (TaskStatus × Task)
unfolding transition
complete = transition completed

unfoldable pub fail : ℕ → Task → Result (TaskStatus × Task)
unfolding transition
fail = transition failed

unfoldable pub cancel : ℕ → Task → Result (TaskStatus × Task)
unfolding transition
cancel = transition cancelled

unfoldable pub retry : ℕ → Task → Result (TaskStatus × Task)
unfolding transition
retry = transition pending

unfoldable pub archive : ℕ → Task → Result (TaskStatus × Task)
unfolding transition
archive = transition archived

-- `Task.is_active`
abbrev pub is_active : TaskStatus → Bool
is_active pending = true
is_active running = true
is_active waiting_approval = true
is_active _ = false
