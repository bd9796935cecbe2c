-- ===== src/Orchestrator/Cancellation.antt =====
-- `handle_cancel_task` of apps/orchestrator/src/application/handlers.py: the cascade from a task to
-- its active runs and to their active steps.
pub mod Loops
pub mod Cascade
use keviq_core.Prelude.{ℕ, ◌+◌, Option, none, some, List, [], ◌∷◌, ◌++◌}
use keviq_core.Errors.{Error, Result, ok, err}
use keviq_core.Orchestrator.Task
use keviq_core.Orchestrator.Task.{Task}
use keviq_core.Orchestrator.Run
use keviq_core.Orchestrator.Run.{Run}
use keviq_core.Orchestrator.Step
use keviq_core.Orchestrator.Step.{Step}
use keviq_core.Orchestrator.Events
use keviq_core.Orchestrator.Events.{OutboxEvent}
use keviq_core.Orchestrator.Session.{
  Tx, ◌>>=◌, ◌>>◌, pure, lift, now, uuid4, commit, with_uow, draw, write, for_each,
}
use keviq_core.Orchestrator.Repositories.{
  save_task, save_run, save_step, list_active_by_task, list_active_by_run,
}
use keviq_core.Orchestrator.Handlers.{require_task}

-- `CancelTaskResult`, with the events that the loops collect.
pub record Cancelled : Type 0 where
  pub runs : List Run
  pub steps : List Step
  pub events : List OutboxEvent

-- The inner loop, over the active steps of one run.
unfoldable pub cancel_steps :
    (task : Task) (run : Run) (correlation_id : ℕ) (run_event : OutboxEvent)
    → Cancelled
    → List Step
    → Tx Cancelled
unfolding Step.cancel save_step draw
cancel_steps task run correlation_id run_event acc [] = pure acc
cancel_steps task run correlation_id run_event acc (step ∷ rest) = do
  t₁ ← now
  t₂ ← now
  (_, step') ← lift (Step.cancel t₁ t₂ step)
  save_step step'
  event ← draw (
      Events.step_cancelled_event step'.id run.id task.id task.workspace_id correlation_id
        (some run_event.event_id))
  cancel_steps task run correlation_id run_event
      (record acc { steps = acc.steps ++ step' ∷ []; events = acc.events ++ event ∷ [] }) rest

-- The outer loop, over the active runs of the task.
unfoldable pub cancel_runs :
    (task : Task) (correlation_id : ℕ) (cancel_event : OutboxEvent)
    → Cancelled
    → List Run
    → Tx Cancelled
unfolding Run.cancel save_run draw list_active_by_run cancel_steps
cancel_runs task correlation_id cancel_event acc [] = pure acc
cancel_runs task correlation_id cancel_event acc (run ∷ rest) = do
  t₁ ← now
  t₂ ← now
  (_, run') ← lift (Run.cancel t₁ t₂ run)
  save_run run'
  event ← draw (
      Events.run_cancelled_event run'.id task.id task.workspace_id correlation_id
        (some cancel_event.event_id))
  active_steps ← list_active_by_run run'.id
  acc' ←
      cancel_steps task run' correlation_id event
        (record acc { runs = acc.runs ++ run' ∷ []; events = acc.events ++ event ∷ [] })
        active_steps
  cancel_runs task correlation_id cancel_event acc' rest

unfoldable pub handle_cancel_task : (task_id cancelled_by_id : ℕ) → Tx (Task × Cancelled)
unfolding with_uow commit require_task save_task Task.cancel draw list_active_by_task cancel_runs
    for_each write
handle_cancel_task task_id cancelled_by_id = with_uow do
  task ← require_task task_id
  t₁ ← now
  (_, task') ← lift (Task.cancel t₁ task)
  save_task task'
  correlation_id ← uuid4
  cancel_event ← draw (
      Events.task_cancelled_event task'.id task'.workspace_id correlation_id (some cancelled_by_id)
        none)
  active_runs ← list_active_by_task task'.id
  result ←
      cancel_runs task' correlation_id cancel_event
        (record { runs = []; steps = []; events = cancel_event ∷ [] }) active_runs
  for_each write result.events
  commit
  pure (task', result)
