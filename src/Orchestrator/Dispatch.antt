-- ===== src/Orchestrator/Dispatch.antt =====
-- `run_real_execution` and `_execute_single_task` of
-- apps/orchestrator/src/application/execution_loop.py: start, sandbox, dispatch, clean-up, finish.
pub mod Atomic
mod Starts
use Prim.Native.String.{◌++◌}
use keviq_core.Prelude.{
  ℕ, String, Bool, true, false, not, ◌&&◌, Option, none, some, List, [], ◌∷◌, if◌then◌else◌,
}
use keviq_core.Errors.{Error, value_error, Result, ok, err, or_raise, raise_if}
use keviq_core.Orchestrator.Task
use keviq_core.Orchestrator.Task.{Task, TaskStatus, Dict, text, uuid}
use keviq_core.Orchestrator.Run
use keviq_core.Orchestrator.Run.{Run, queued, manual}
use keviq_core.Orchestrator.Step
use keviq_core.Orchestrator.Step.{Step, agent_invocation}
use keviq_core.Orchestrator.Events
use keviq_core.Orchestrator.Events.{OutboxEvent}
use keviq_core.Orchestrator.Session.{
  Db, Session, Tx, ◌>>=◌, ◌>>◌, pure, lift, now, uuid4, commit, with_uow, draw, write, ask,
  provisioned, dispatched, terminated,
}
use keviq_core.Orchestrator.Moves.{once, twice, move_task, move_run, move_step}
use keviq_core.Orchestrator.Repositories.{save_task, get_task, save_run, save_step}
use keviq_core.Orchestrator.Execution.{
  RuntimeResult, Reply, answered, raised, failure, dispatch_result, map_termination_reason,
  finalize_execution,
}

-- What is kept across the commit before the dispatch.
pub record Started : Type 0 where
  pub task : Task
  pub run : Run
  pub step : Step
  pub correlation_id : ℕ
  pub agent_invocation_id : ℕ
  pub step_started : OutboxEvent

-- `input_snapshot` of the step.
abbrev input_of : Task → ℕ → Dict
input_of task agent_invocation_id =
    ("task_title", text task.title) ∷ ("agent_invocation_id", uuid agent_invocation_id) ∷ []

-- `run.prepare()` and `uow.runs.save(run)`
unfoldable pub prepare_run : Run → Tx Run
unfolding save_run
prepare_run run = do t₁ ← now; (_, run') ← lift (Run.prepare t₁ run); save_run run'; pure run'

-- `Step(…)` and `uow.steps.save(step)`
unfoldable pub create_step : (run_id workspace_id : ℕ) → Tx Step
unfolding save_step Step.new
create_step run_id workspace_id = do
  step_id ← uuid4
  t₁ ← now
  step ← lift (Step.new step_id t₁ run_id workspace_id 1 agent_invocation)
  save_step step
  pure step

-- Steps 1 to 5 and the commit: the task, its run and its step are running.
unfoldable pub start_execution : Task → Tx Started
unfolding commit
start_execution task = do
  correlation_id ← uuid4
  agent_invocation_id ← uuid4
  (task', task_started) ←
      move_task (once λ t₁. Task.start t₁ task)
        λ t. Events.task_started_event t.id t.workspace_id correlation_id none
  run_id ← uuid4
  (run, run_queued) ←
      move_run (once λ t₁. ok (queued, Run.new run_id t₁ task'.id task'.workspace_id manual)) λ r.
        Events.run_queued_event r.id task'.id task'.workspace_id correlation_id r.trigger_type
          (some task_started.event_id)
  run₁ ← prepare_run run
  (run₂, run_started) ← move_run (twice λ t₁ t₂. Run.start t₁ t₂ run₁) λ r.
      Events.run_started_event r.id task'.id task'.workspace_id correlation_id
        (some run_queued.event_id)
  step ← create_step run₂.id task'.workspace_id
  (step', step_started) ←
      move_step (twice λ t₁ t₂. Step.start (some (input_of task' agent_invocation_id)) t₁ t₂ step)
        λ q.
          Events.step_started_event q.id run₂.id task'.id task'.workspace_id correlation_id
            q.step_type q.sequence (some run_started.event_id)
  commit
  pure (record {
    task = task';
    run = run₂;
    step = step';
    correlation_id = correlation_id;
    agent_invocation_id = agent_invocation_id;
    step_started = step_started;
  })

-- execution-service and agent-runtime, as the code meets them, and the other transactions.
pub record World : Type 0 where
  -- `execution_service is not None`, and what `provision_sandbox` answers: the sandbox's id.
  pub execution_service : Option (Reply ℕ)
  -- `SKIP_SANDBOX_PROVISIONING`
  pub skip_sandbox : Bool
  -- `dispatcher.dispatch(…)`, by the sandbox in the input payload
  pub dispatch : Option ℕ → Reply RuntimeResult
  -- what other transactions make of the tables until the answer is there
  pub meanwhile : Db → Db

-- Time passes: other transactions commit.
unfoldable pub wait : (Db → Db) → Tx (Unit {0})
wait meanwhile s = (ok tt, record s { db = meanwhile s.db; committed = meanwhile s.committed })

-- `finally`: the sandbox, if there is one, is terminated with the reason that the result maps to.
-- What `terminate_sandbox` answers or raises changes nothing.
unfoldable pub clean_up : Option ℕ → RuntimeResult → Tx (Unit {0})
unfolding ask map_termination_reason
clean_up none result = pure tt
clean_up (some sandbox_id) result = ask (terminated sandbox_id (map_termination_reason result))

-- The dispatch, the clean-up and the end of the execution.
unfoldable pub dispatch_and_finish : World → Started → Option ℕ → Tx (Unit {0})
unfolding ask wait clean_up
dispatch_and_finish world e sandbox_id = do
  ask (dispatched e.agent_invocation_id sandbox_id)
  wait world.meanwhile
  let result = dispatch_result e.agent_invocation_id (world.dispatch sandbox_id)
  clean_up sandbox_id result
  finalize_execution e.task.id e.run.id e.step.id result e.correlation_id e.step_started

-- Steps 6a to 8.
unfoldable pub after_provision : World → Started → Reply ℕ → Tx (Unit {0})
unfolding dispatch_and_finish
after_provision world e (answered sandbox_id) = dispatch_and_finish world e (some sandbox_id)
after_provision world e (raised name message) = do
  wait world.meanwhile
  finalize_execution e.task.id e.run.id e.step.id
      (failure e.agent_invocation_id "SANDBOX_PROVISION_FAILED"
        ("Failed to provision sandbox: " ++ (name ++ (": " ++ message))))
      e.correlation_id e.step_started

unfoldable pub provision : World → Started → Option (Reply ℕ) → Tx (Unit {0})
unfolding after_provision ask
provision world e none = dispatch_and_finish world e none
provision world e (some reply) =
    if world.skip_sandbox then dispatch_and_finish world e none else (do
      ask (provisioned e.task.workspace_id e.task.id e.run.id e.step.id e.agent_invocation_id)
      after_provision world e reply)

unfoldable pub execute_single_task : World → Task → Tx (Unit {0})
unfolding provision
execute_single_task world task = do
  started ← start_execution task
  provision world started world.execution_service

abbrev pub is_pending : TaskStatus → Bool
is_pending TaskStatus.pending = true
is_pending _ = false

unfoldable pub run_real_execution : World → (task_id : ℕ) → Tx (Unit {0})
unfolding with_uow get_task execute_single_task
run_real_execution world task_id = with_uow do
  found ← get_task task_id
  task ← lift (or_raise found value_error)
  lift (raise_if (not (is_pending task.task_status)) value_error)
  execute_single_task world task
