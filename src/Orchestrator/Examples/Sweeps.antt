-- ===== src/Orchestrator/Examples/Sweeps.antt =====
-- The recovery and the approvals, at concrete tables.
use keviq_core.Prelude.{◌≡◌, refl, some, [], ◌∷◌}
use keviq_core.Prelude.Tables
use keviq_core.Errors.{Error, ok, err, domain_error}
use keviq_core.Orchestrator.Task.{TaskStatus}
use keviq_core.Orchestrator.Run
use keviq_core.Orchestrator.Run.{RunStatus}
use keviq_core.Orchestrator.Step.{StepStatus}
use keviq_core.Orchestrator.Approval.{Approval, ApprovalDecision}
use keviq_core.Orchestrator.Session.{Session}
use keviq_core.Orchestrator.Moves.{Returns}
use keviq_core.Orchestrator.Recovery.{recover_single_task}
use keviq_core.Orchestrator.Recovery.Orphans.{Settled, recover_single_task-settles}
use keviq_core.Orchestrator.ApprovalHandlers.{handle_decide_approval}
use keviq_core.Orchestrator.ApprovalHandlers.Decisions.{decide-once}
use keviq_core.Orchestrator.Samples.{
  some_task, some_run, some_step, session, some_request, approval, task_at-session,
  some_task-IsSound,
}

abbrev busy : Session
busy =
    session (some_task TaskStatus.running ∷ []) (some_run RunStatus.completing ∷ [])
      (some_step StepStatus.running ∷ [])

-- The run is over, and its task is still running.
abbrev orphaned : Session
orphaned = session (some_task TaskStatus.running ∷ []) (some_run RunStatus.completed ∷ []) []

recover_single_task-settles_example :
    Returns (Settled 1 orphaned) (recover_single_task 1 7 orphaned)
recover_single_task-settles_example =
    recover_single_task-settles 1 7 (some_task TaskStatus.running) orphaned
      (task_at-session TaskStatus.running [] (some_run RunStatus.completed ∷ []) [])
      (some_task-IsSound TaskStatus.running) refl (refl, tt)

-- An approval of a task that waits for none is refused; of one that waits, it is carried out.
abbrev undecided : Session
undecided = session (some_task TaskStatus.waiting_approval ∷ []) [] []

abbrev decided : Approval
decided = record some_request {
  decision = ApprovalDecision.approved;
  decided_by_id = some 9;
  decided_at = some 101;
  updated_at = 100;
}

approval_returns : (handle_decide_approval approval undecided).0 ≡ ok decided
unfolding handle_decide_approval Tables.find
approval_returns = refl

decide-once_example :
    let s' = (handle_decide_approval approval undecided).1 in
    ((e : Error) × ((handle_decide_approval approval s').0 ≡ err e))
    × ((handle_decide_approval approval s').1.committed ≡ s'.committed)
decide-once_example = decide-once approval approval undecided decided approval_returns refl

elsewhere_raises :
    (handle_decide_approval (record approval { workspace_id = 8 }) undecided).0 ≡ err domain_error
unfolding handle_decide_approval Tables.find
elsewhere_raises = refl
