-- ===== src/Orchestrator/Samples.antt =====
-- Concrete entities, tables and services for the tests.
use keviq_core.Prelude.{◌+◌, false, none, some, List, [], ◌∷◌}
use keviq_core.Prelude.{is_blank, ◌≡◌, refl}
use keviq_core.Prelude.Tables
use keviq_core.Orchestrator.Repositories.{task_at, run_at, step_at}
use keviq_core.Orchestrator.Task
use keviq_core.Orchestrator.Task.Brief.{IsSound}
use keviq_core.Orchestrator.Task.{Task, TaskStatus, coding}
use keviq_core.Orchestrator.Run.{Run, RunStatus, manual}
use keviq_core.Orchestrator.Step.{Step, StepStatus, agent_invocation}
use keviq_core.Orchestrator.Approval.{Approval, ApprovalDecision, ApprovalTargetType}
use keviq_core.Orchestrator.Events.{OutboxEvent, Payload}
use keviq_core.Orchestrator.Session.{Session, Db}
use keviq_core.Orchestrator.Execution.{RuntimeResult, answered}
use keviq_core.Orchestrator.Dispatch.{World}
use keviq_core.Orchestrator.ApprovalHandlers.{DecideApproval}

-- A task with everything that a launch requires.
abbrev pub some_task : TaskStatus → Task
some_task status = record {
  id = 1;
  workspace_id = 7;
  title = "Ship it";
  description = none;
  task_type = coding;
  task_status = status;
  input_config = [];
  repo_snapshot_id = none;
  policy_id = none;
  parent_task_id = none;
  created_by_id = 9;
  created_at = 0;
  updated_at = 0;
  goal = some "a release";
  context = none;
  constraints = none;
  desired_output = some "a tag";
  template_id = none;
  agent_template_id = some 4;
  risk_level = some "low";
}

abbrev pub some_run : RunStatus → Run
some_run status = record {
  id = 2;
  task_id = 1;
  workspace_id = 7;
  run_status = status;
  trigger_type = manual;
  triggered_by_id = none;
  started_at = none;
  completed_at = none;
  duration_ms = none;
  run_config = [];
  error_summary = none;
  created_at = 0;
  updated_at = 0;
  config_locked = false;
}

abbrev pub some_step : StepStatus → Step
some_step status = record {
  id = 3;
  run_id = 2;
  workspace_id = 7;
  step_type = agent_invocation;
  step_status = status;
  sequence = 1;
  parent_step_id = none;
  input_snapshot = none;
  output_snapshot = none;
  started_at = none;
  completed_at = none;
  error_detail = none;
  created_at = 0;
  updated_at = 0;
}

-- A request about the task.
abbrev pub some_request : Approval
some_request = record {
  id = 5;
  workspace_id = 7;
  target_type = ApprovalTargetType.task;
  target_id = 1;
  requested_by = "agent";
  reviewer_id = none;
  prompt = none;
  timeout_at = none;
  decision = ApprovalDecision.pending;
  decided_by_id = none;
  decided_at = none;
  decision_comment = none;
  created_at = 0;
  updated_at = 0;
}

-- A session over these tables; the clock ticks once a reading.
abbrev pub session : List Task → List Run → List Step → Session
session tasks runs steps =
    let d : Db = record {
      tasks = tasks;
      runs = runs;
      steps = steps;
      approvals = some_request ∷ [];
      agent_templates = [];
      outbox = [];
    } in
    record {
      db = d;
      committed = d;
      clock = λ n. n + 100;
      reads = 0;
      uuids = λ n. n + 1000;
      draws = 0;
      port_calls = [];
    }

abbrev pub success : RuntimeResult
success = record {
  agent_invocation_id = 1001;
  status = "completed";
  output_text = "done";
  error_code = none;
  error_message = none;
  retryable = false;
  prompt_tokens = 10;
  completion_tokens = 20;
}

-- A sandbox is provisioned, the agent succeeds, and nothing else happens meanwhile.
abbrev pub calm : World
calm = record {
  execution_service = some (answered 77);
  skip_sandbox = false;
  dispatch = λ _. answered success;
  meanwhile = λ d. d;
}

abbrev pub some_event : OutboxEvent
some_event = record {
  payload = Payload.task_started;
  workspace_id = 7;
  correlation_id = 50;
  task_id = some 1;
  run_id = none;
  step_id = none;
  causation_id = none;
  event_id = 51;
  occurred_at = 100;
}

-- A reviewer's approval of the request.
abbrev pub approval : DecideApproval
approval = record {
  approval_id = 5;
  workspace_id = 7;
  decided_by_id = 9;
  decision = "approve";
  comment = none;
}

-- The tables hold them under their keys, and the task is one that its constructor accepts.
module _ (task_status : TaskStatus) (tasks : List Task) (runs : List Run) (steps : List Step) where
  pub task_at-session :
      task_at (session (some_task task_status ∷ tasks) runs steps).committed 1
      ≡ some (some_task task_status)
  unfolding Tables.find
  task_at-session = refl

module _ (run_status : RunStatus) (tasks : List Task) (runs : List Run) (steps : List Step) where
  pub run_at-session :
      run_at (session tasks (some_run run_status ∷ runs) steps).committed 2
      ≡ some (some_run run_status)
  unfolding Tables.find
  run_at-session = refl

module _ (step_status : StepStatus) (tasks : List Task) (runs : List Run) (steps : List Step) where
  pub step_at-session :
      step_at (session tasks runs (some_step step_status ∷ steps)).committed 3
      ≡ some (some_step step_status)
  unfolding Tables.find
  step_at-session = refl

pub some_task-IsSound : (status : TaskStatus) → IsSound (some_task status)
unfolding is_blank Task.bad_risk
some_task-IsSound status = record { titled = refl; rated = refl }
