-- ===== src/Orchestrator/Handlers.antt =====
-- apps/orchestrator/src/application/handlers.py and commands.py. A handler runs in one transaction;
-- its result is the task that it returns.
pub mod Commands
pub mod Launch
use keviq_core.Prelude.{
  ℕ, String, Bool, true, false, not, ◌&&◌, ◌||◌, Option, none, some, List, [], ◌∷◌, ◌++◌, str_eq,
  is_blank, is_empty, is_some, if◌then◌else◌,
}
use keviq_core.Errors.{
  Error, domain_error, domain_validation, value_error, Result, ok, err, raise_if, or_raise,
}
use keviq_core.Orchestrator.Task
use keviq_core.Orchestrator.Task.{
  Task, TaskArgs, TaskType, TaskStatus, Dict, coding, research, analysis, operation, custom, draft,
}
use keviq_core.Orchestrator.Task.Brief
use keviq_core.Orchestrator.Task.Brief.{BriefField}
use keviq_core.Orchestrator.Run
use keviq_core.Orchestrator.Run.{Run}
use keviq_core.Orchestrator.Step
use keviq_core.Orchestrator.Step.{Step}
use keviq_core.Orchestrator.Events
use keviq_core.Orchestrator.Events.{OutboxEvent}
use keviq_core.Orchestrator.Session.{
  Tx, ◌>>=◌, ◌>>◌, pure, raise, lift, now, uuid4, commit, with_uow, draw, write, for_each,
  AgentTemplate,
}
use keviq_core.Orchestrator.Repositories.{
  save_task, get_task, save_run, save_step, list_active_by_task, list_active_by_run,
  get_agent_template,
}

-- `TaskType(value)`
unfoldable pub parse_task_type : String → Result TaskType
parse_task_type s =
    if str_eq s "coding"
    then ok coding
    else if str_eq s "research"
    then ok research
    else if str_eq s "analysis"
    then ok analysis
    else if str_eq s "operation"
    then ok operation
    else if str_eq s "custom"
    then ok custom
    else err value_error

pub record SubmitTask : Type 0 where
  pub workspace_id : ℕ
  pub title : String
  pub task_type : String
  pub created_by_id : ℕ
  pub description : Option String
  pub input_config : Option Dict
  pub repo_snapshot_id : Option ℕ
  pub policy_id : Option ℕ
  pub parent_task_id : Option ℕ

-- The arguments of `Task(…)` in `handle_submit_task`.
abbrev submit_args : SubmitTask → TaskType → TaskArgs
submit_args c task_type = record {
  workspace_id = c.workspace_id;
  title = c.title;
  task_type = task_type;
  created_by_id = c.created_by_id;
  description = c.description;
  input_config = c.input_config;
  repo_snapshot_id = c.repo_snapshot_id;
  policy_id = c.policy_id;
  parent_task_id = c.parent_task_id;
  goal = none;
  context = none;
  constraints = none;
  desired_output = none;
  template_id = none;
  agent_template_id = none;
  risk_level = none;
  id = none;
  task_status = draft;
  created_at = none;
  updated_at = none;
}

-- `task_submitted_event` as the handlers write it.
unfoldable pub announce : ℕ → Task → Tx (Unit {0})
unfolding draw write
announce created_by_id task = do
  correlation_id ← uuid4
  event ← draw (
      Events.task_submitted_event task.id task.workspace_id correlation_id created_by_id task.title
        task.task_type none)
  write event

unfoldable pub handle_submit_task : SubmitTask → Tx Task
unfolding with_uow commit announce save_task Task.new Task.submit
handle_submit_task cmd = with_uow do
  task_type ← lift (parse_task_type cmd.task_type)
  created ← now
  fresh ← uuid4
  task ← lift (Task.new fresh created (submit_args cmd task_type))
  submitted ← now
  (_, task') ← lift (Task.submit submitted task)
  save_task task'
  announce task'.created_by_id task'
  commit
  pure task'

pub record CreateTaskDraft : Type 0 where
  pub workspace_id : ℕ
  pub title : String
  pub task_type : String
  pub created_by_id : ℕ
  pub description : Option String
  pub goal : Option String
  pub context : Option String
  pub constraints : Option String
  pub desired_output : Option String
  pub template_id : Option ℕ
  pub agent_template_id : Option ℕ
  pub risk_level : Option String
  pub input_config : Option Dict

-- The arguments of `Task(…)` in `handle_create_draft`.
abbrev draft_args : CreateTaskDraft → TaskType → TaskArgs
draft_args c task_type = record {
  workspace_id = c.workspace_id;
  title = c.title;
  task_type = task_type;
  created_by_id = c.created_by_id;
  description = c.description;
  input_config = c.input_config;
  repo_snapshot_id = none;
  policy_id = none;
  parent_task_id = none;
  goal = c.goal;
  context = c.context;
  constraints = c.constraints;
  desired_output = c.desired_output;
  template_id = c.template_id;
  agent_template_id = c.agent_template_id;
  risk_level = c.risk_level;
  id = none;
  task_status = draft;
  created_at = none;
  updated_at = none;
}

unfoldable pub handle_create_draft : CreateTaskDraft → Tx Task
unfolding with_uow commit save_task Task.new
handle_create_draft cmd = with_uow do
  task_type ← lift (parse_task_type cmd.task_type)
  created ← now
  fresh ← uuid4
  task ← lift (Task.new fresh created (draft_args cmd task_type))
  save_task task
  commit
  pure task

-- `uow.tasks.get_by_id(…)` with the `DomainError` for a missing task.
unfoldable pub require_task : ℕ → Tx Task
unfolding get_task
require_task task_id = do found ← get_task task_id; lift (or_raise found domain_error)

-- `update_brief` on the object; the task as it is afterwards, or what it raised.
abbrev brief : Result (Unit {0}) × Task → Result Task
brief (ok _, t) = ok t
brief (err e, t) = err e

unfoldable pub handle_update_brief : (task_id : ℕ) → List BriefField → Tx Task
unfolding with_uow commit require_task save_task Brief.update_brief
handle_update_brief task_id updates = with_uow do
  task ← require_task task_id
  updated ← now
  task' ← lift (brief (Brief.update_brief updates updated task))
  save_task task'
  commit
  pure task'

-- `_validate_launch_readiness`: a draft whose required fields are all there.
unfoldable pub validate_launch_readiness : Task → Result (Unit {0})
unfolding Task.is_missing is_blank
validate_launch_readiness t =
    if not (Brief.is_draft t.task_status)
      || is_blank t.title
      || Task.is_missing t.goal
      || Task.is_missing t.desired_output
      || not (is_some t.agent_template_id)
    then err domain_validation
    else ok tt

-- `not task.risk_level`
abbrev pub no_risk : Option String → Bool
no_risk none = true
no_risk (some s) = is_empty s

-- The risk level of the agent template, where the template is there.
unfoldable pub adopt_risk : Option AgentTemplate → Task → Tx Task
unfolding Brief.update_brief
adopt_risk none task = pure task
adopt_risk (some template) task = do
  updated ← now
  lift (
      brief (
        Brief.update_brief (BriefField.risk_level (some template.default_risk_profile) ∷ []) updated
          task))

-- `if not task.risk_level and task.agent_template_id`
unfoldable pub default_risk : Option ℕ → Task → Tx Task
unfolding adopt_risk get_agent_template
default_risk none task = pure task
default_risk (some template_id) task =
    if no_risk task.risk_level
    then (do template ← get_agent_template template_id; adopt_risk template task)
    else pure task

unfoldable pub handle_launch_task : (task_id launched_by_id : ℕ) → Tx Task
unfolding with_uow commit require_task save_task announce validate_launch_readiness default_risk
    Task.submit
handle_launch_task task_id launched_by_id = with_uow do
  task ← require_task task_id
  lift (validate_launch_readiness task)
  rated ← default_risk task.agent_template_id task
  submitted ← now
  (_, task') ← lift (Task.submit submitted rated)
  save_task task'
  announce launched_by_id task'
  commit
  pure task'

unfoldable pub handle_retry_task : (task_id retried_by_id : ℕ) → Tx Task
unfolding with_uow commit require_task save_task draw write Task.retry
handle_retry_task task_id retried_by_id = with_uow do
  task ← require_task task_id
  retried ← now
  (_, task') ← lift (Task.retry retried task)
  save_task task'
  correlation_id ← uuid4
  event ← draw (Events.task_retried_event task'.id task'.workspace_id correlation_id retried_by_id)
  write event
  commit
  pure task'
