-- ===== src/Orchestrator/ApprovalHandlers.antt =====
-- apps/orchestrator/src/application/approval_handlers.py and approval_commands.py.
pub mod Decisions
use keviq_core.Prelude.{
  ℕ, String, Bool, true, false, not, Option, none, some, str_eq, ◌==◌, if◌then◌else◌,
}
use keviq_core.Errors.{Error, domain_error, value_error, Result, ok, err, or_raise, raise_if}
use keviq_core.Orchestrator.Task
use keviq_core.Orchestrator.Task.{Task, TaskStatus}
use keviq_core.Orchestrator.Run
use keviq_core.Orchestrator.Run.{Run, RunStatus}
use keviq_core.Orchestrator.Step
use keviq_core.Orchestrator.Step.{Step, StepStatus}
use keviq_core.Orchestrator.Approval
use keviq_core.Orchestrator.Approval.{
  Approval, ApprovalDecision, ApprovalTargetType, task, run, step, artifact, tool_call,
}
use keviq_core.Orchestrator.Events
use keviq_core.Orchestrator.Session.{
  Tx, ◌>>=◌, ◌>>◌, pure, raise, lift, now, uuid4, commit, with_uow, draw, write,
}
use keviq_core.Orchestrator.Repositories.{
  save_task, get_task, save_run, get_run, save_step, get_step, save_approval, get_approval,
}

-- `ApprovalTargetType(value)`
unfoldable pub parse_target_type : String → Result ApprovalTargetType
parse_target_type s =
    if str_eq s "task"
    then ok task
    else if str_eq s "run"
    then ok run
    else if str_eq s "step"
    then ok step
    else if str_eq s "artifact"
    then ok artifact
    else if str_eq s "tool_call"
    then ok tool_call
    else err value_error

pub record CreateApprovalRequest : Type 0 where
  pub workspace_id : ℕ
  pub target_type : String
  pub target_id : ℕ
  pub requested_by : String
  pub prompt : String
  pub correlation_id : ℕ
  pub reviewer_id : Option ℕ

unfoldable pub handle_create_approval : CreateApprovalRequest → Tx Approval
unfolding with_uow commit parse_target_type Approval.new save_approval draw write
handle_create_approval cmd = do
  target_type ← lift (parse_target_type cmd.target_type)
  with_uow do
    t₁ ← now
    fresh ← uuid4
    approval ← lift (
        Approval.new fresh t₁ cmd.workspace_id target_type cmd.target_id cmd.requested_by
          cmd.reviewer_id (some cmd.prompt))
    save_approval approval
    event ← draw (
        Events.approval_requested_event approval.id approval.workspace_id approval.target_type
          approval.target_id approval.requested_by approval.prompt cmd.correlation_id)
    write event
    commit
    pure approval

pub record DecideApproval : Type 0 where
  pub approval_id : ℕ
  pub workspace_id : ℕ
  pub decided_by_id : ℕ
  pub decision : String
  pub comment : Option String

-- `if entity: entity.approve(); save`, for a task, a run and a step; one that is not there is only
-- logged.
unfoldable pub approve_task : Option Task → Tx (Unit {0})
unfolding Task.approve save_task
approve_task none = pure tt
approve_task (some t) = do t₁ ← now; (_, t') ← lift (Task.approve t₁ t); save_task t'

unfoldable pub approve_run : Option Run → Tx (Unit {0})
unfolding Run.approve save_run
approve_run none = pure tt
approve_run (some r) = do t₁ ← now; (_, r') ← lift (Run.approve t₁ r); save_run r'

unfoldable pub approve_step : Option Step → Tx (Unit {0})
unfolding Step.approve save_step
approve_step none = pure tt
approve_step (some q) = do t₁ ← now; (_, q') ← lift (Step.approve t₁ q); save_step q'

-- `_transition_target_on_approve`
unfoldable pub transition_target : ApprovalTargetType → (target_id : ℕ) → Tx (Unit {0})
unfolding get_task get_run get_step approve_task approve_run approve_step
transition_target task target_id = do found ← get_task target_id; approve_task found
transition_target run target_id = do found ← get_run target_id; approve_run found
transition_target step target_id = do found ← get_step target_id; approve_step found
transition_target artifact target_id = pure tt
transition_target tool_call target_id = pure tt

unfoldable pub approve_request : DecideApproval → Approval → Tx Approval
unfolding Approval.approve transition_target
approve_request cmd a = do
  t₁ ← now
  t₂ ← now
  (_, a') ← lift (Approval.approve cmd.decided_by_id cmd.comment t₁ t₂ a)
  transition_target a'.target_type a'.target_id
  pure a'

unfoldable pub reject_request : DecideApproval → Approval → Tx Approval
unfolding Approval.reject
reject_request cmd a = do
  t₁ ← now
  t₂ ← now
  (_, a') ← lift (Approval.reject cmd.decided_by_id cmd.comment t₁ t₂ a)
  pure a'

-- The choice by `cmd.decision`.
unfoldable pub decide : DecideApproval → Approval → Tx Approval
unfolding approve_request reject_request
decide cmd a =
    if str_eq cmd.decision "approve"
    then approve_request cmd a
    else if str_eq cmd.decision "reject"
    then reject_request cmd a
    else raise domain_error

unfoldable pub handle_decide_approval : DecideApproval → Tx Approval
unfolding with_uow commit get_approval decide save_approval draw write
handle_decide_approval cmd = with_uow do
  found ← get_approval cmd.approval_id
  a ← lift (or_raise found domain_error)
  lift (raise_if (not (a.workspace_id == cmd.workspace_id)) domain_error)
  a' ← decide cmd a
  save_approval a'
  correlation_id ← uuid4
  event ← draw (
      Events.approval_decided_event a'.id a'.workspace_id a'.decision cmd.decided_by_id
        a'.target_type a'.target_id cmd.comment correlation_id)
  write event
  commit
  pure a'
