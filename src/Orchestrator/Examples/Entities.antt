-- ===== src/Orchestrator/Examples/Entities.antt =====
-- The lifecycles of the entities, at concrete calls.
use keviq_core.Prelude.{◌≡◌, refl, true, none, some, [], ◌∷◌}
use keviq_core.Errors.{terminal_state, ok, err}
use keviq_core.Orchestrator.Task
use keviq_core.Orchestrator.Task.{Task, TaskStatus, task_machine}
use keviq_core.Orchestrator.Task.Lifecycle.{
  Follows, call-Follows, Follows-call, call-err, over-settles, starts, submits, retries,
}
use keviq_core.Orchestrator.Task.Brief.{BriefField, IsSound, update_brief, update_brief-IsSound}
use keviq_core.Orchestrator.Run
use keviq_core.Orchestrator.Run.{Run, RunStatus, run_machine}
use keviq_core.Orchestrator.Run.Timeline.{
  completes, approves, begins_completing, call-started, approve-preparing,
}
use keviq_core.Orchestrator.Step
use keviq_core.Orchestrator.Step.{Step, StepStatus, agent_invocation}
use keviq_core.Orchestrator.Step.Lifecycle.{
  step_call-Follows, Follows-step_call, step_call-terminal, Reachable-IsTimed, created,
}
use keviq_core.Orchestrator.Approval
use keviq_core.Orchestrator.Approval.{ApprovalDecision, ApprovalTargetType}
use keviq_core.Orchestrator.Approval.Lifecycle.{
  IsRecorded, calls-first, calls-new-IsRecorded, rejects,
}
use keviq_core.Orchestrator.Samples.{
  some_task, some_run, some_step, some_request, some_task-IsSound,
}

-- Tasks
start_returns :
    Task.Lifecycle.call starts 100 (some_task TaskStatus.pending)
    ≡ ok (
      TaskStatus.pending,
      record (some_task TaskStatus.pending) { task_status = TaskStatus.running; updated_at = 100 },
    )
unfolding Task.Lifecycle.call
start_returns = refl

call-Follows_example :
    (TaskStatus.pending ≡ TaskStatus.pending)
    × Follows TaskStatus.pending TaskStatus.running
    × (record (some_task TaskStatus.pending) { task_status = TaskStatus.running; updated_at = 100 }
        ≡ record (some_task TaskStatus.pending) {
          task_status = TaskStatus.running;
          updated_at = 100;
        })
call-Follows_example =
    call-Follows starts 100 (some_task TaskStatus.pending)
      (record (some_task TaskStatus.pending) { task_status = TaskStatus.running; updated_at = 100 })
      TaskStatus.pending start_returns

Follows-call_example :
    Task.Lifecycle.call retries 100 (some_task TaskStatus.failed)
    ≡ ok (
      TaskStatus.failed,
      record (some_task TaskStatus.failed) { task_status = TaskStatus.pending; updated_at = 100 },
    )
Follows-call_example =
    Follows-call retries 100 (some_task TaskStatus.failed) Follows.resubmitted refl refl

start_raises : Task.Lifecycle.call starts 100 (some_task TaskStatus.archived) ≡ err terminal_state
unfolding Task.Lifecycle.call
start_raises = refl

update_brief-IsSound_example :
    IsSound
      (update_brief (BriefField.risk_level (some "severe") ∷ []) 100 (some_task TaskStatus.draft)).1
update_brief-IsSound_example =
    update_brief-IsSound (BriefField.risk_level (some "severe") ∷ []) 100
      (some_task TaskStatus.draft) (some_task-IsSound TaskStatus.draft)

abbrev locked : Run
locked = record (some_run RunStatus.running) { config_locked = true }

abbrev finishing : Run
finishing = record locked { run_status = RunStatus.completing; updated_at = 100 }

completing_returns :
    Run.Timeline.call (begins_completing 100) locked ≡ ok (RunStatus.running, finishing)
unfolding Run.Timeline.call
completing_returns = refl

-- Steps
abbrev blocked : Step
blocked = record (some_step StepStatus.running) {
  step_status = StepStatus.blocked;
  updated_at = 100;
}

block_returns :
    Step.Lifecycle.call (Step.Lifecycle.blocks 100) (some_step StepStatus.running)
    ≡ ok (StepStatus.running, blocked)
unfolding Step.Lifecycle.call
block_returns = refl

step_call-Follows_example :
    (StepStatus.running ≡ StepStatus.running)
    × Step.Lifecycle.Follows (Step.Lifecycle.blocks 100) StepStatus.running StepStatus.blocked
step_call-Follows_example =
    step_call-Follows (Step.Lifecycle.blocks 100) (some_step StepStatus.running) blocked
      StepStatus.running block_returns

new_step_returns : Step.new 3 0 2 7 1 agent_invocation ≡ ok (some_step StepStatus.pending)
unfolding Step.new
new_step_returns = refl

Reachable-IsTimed_example : Step.Lifecycle.IsTimed (some_step StepStatus.pending)
Reachable-IsTimed_example =
    Reachable-IsTimed
      (created 3 0 2 7 1 agent_invocation (some_step StepStatus.pending) new_step_returns)

-- Approvals
calls-first_example :
    ((Approval.Lifecycle.calls
        (rejects 9 none 100 101 ∷ rejects 8 none 102 103 ∷ [])
        some_request).decision
      ≡ ApprovalDecision.rejected)
    × (Approval.Lifecycle.calls (rejects 9 none 100 101 ∷ rejects 8 none 102 103 ∷ []) some_request
        ≡ Approval.Lifecycle.calls (rejects 9 none 100 101 ∷ []) some_request)
calls-first_example =
    calls-first (rejects 9 none 100 101) (rejects 8 none 102 103 ∷ []) some_request refl
