-- ===== src/Orchestrator/Recovery.antt =====
-- apps/orchestrator/src/application/recovery.py: the sweep over stuck runs, stuck steps and tasks
-- without an active run. Log lines are left out.
pub mod Sweep
pub mod Orphans
pub mod Runs
use keviq_core.Prelude.{
  ℕ, String, ◌-◌, ◌*◌, Bool, true, false, not, ◌||◌, Option, none, some, List, [], ◌∷◌, ◌++◌,
  if◌then◌else◌, is_nil,
}
use keviq_core.Errors.{Error, Result, ok, err}
use keviq_core.Orchestrator.Task
use keviq_core.Orchestrator.Task.{Task, TaskStatus, Dict, text}
use keviq_core.Orchestrator.Run
use keviq_core.Orchestrator.Run.{Run, RunStatus, preparing, running, completing, completed}
use keviq_core.Orchestrator.Step
use keviq_core.Orchestrator.Step.{Step, StepStatus}
use keviq_core.Orchestrator.Events
use keviq_core.Orchestrator.Events.{
  RecoveryAction, skipped_already_terminal, skipped_no_longer_stuck, force_completed, marked_failed,
  marked_completed, reconciliation_failed,
}
use keviq_core.Orchestrator.Session.{
  Tx, ◌>>=◌, ◌>>◌, pure, lift, now, uuid4, commit, with_uow, draw, write, for_each, try_except,
}
use keviq_core.Orchestrator.Repositories.{
  save_task, get_task, list_running, is_running_task, save_run, get_run, list_active_by_task,
  get_latest_by_task, list_stuck_runs, save_step, get_step, list_active_by_run, list_stuck_steps,
}

-- `RecoveryResult` of ports.py; `error` is the exception instead of its text.
pub record RecoveryResult : Type 0 where
  pub entity : String
  pub id : ℕ
  pub previous_status : String
  pub action : RecoveryAction
  pub success : Bool
  pub error : Option Error

abbrev pub done : String → ℕ → String → RecoveryAction → RecoveryResult
done entity id previous action = record {
  entity = entity;
  id = id;
  previous_status = previous;
  action = action;
  success = true;
  error = none;
}

-- The result after `except Exception as exc`.
abbrev pub gave_up : String → ℕ → String → Error → RecoveryResult
gave_up entity id previous e = record {
  entity = entity;
  id = id;
  previous_status = previous;
  action = reconciliation_failed;
  success = false;
  error = some e;
}

-- `_STUCK_RUN_STATUSES`
abbrev pub stuck_run_status : RunStatus → Bool
stuck_run_status preparing = true
stuck_run_status running = true
stuck_run_status completing = true
stuck_run_status _ = false

-- `_STUCK_STEP_STATUSES`
abbrev pub stuck_step_status : StepStatus → Bool
stuck_step_status StepStatus.running = true
stuck_step_status _ = false

-- The summary by the status that the run is stuck in.
abbrev stuck_summary : RunStatus → String
stuck_summary completing = "Recovery sweep: stuck in completing"
stuck_summary running = "Recovery sweep: stuck in running"
stuck_summary _ = "Recovery sweep: stuck in preparing"

-- `run.fail(error_summary=…)`
unfoldable pub fail_run : (t₁ t₂ : ℕ) → Run → Result (Run × RecoveryAction)
unfolding Run.fail
fail_run t₁ t₂ r = elim (Run.fail (some (stuck_summary r.run_status)) t₁ t₂ r) [
  | ok (_, r') ↦ ok (r', marked_failed)
  | err e ↦ err e
]

-- `run.complete()`, and `run.fail(…)` where that raises
unfoldable pub complete_or_fail : (t₁ t₂ : ℕ) → Run → Result (Run × RecoveryAction)
unfolding Run.complete fail_run
complete_or_fail t₁ t₂ r = elim (Run.complete t₁ t₂ r) [
  | ok (_, r') ↦ ok (r', force_completed)
  | err e ↦ fail_run t₁ t₂ r
]

abbrev is_completing : RunStatus → Bool
is_completing completing = true
is_completing _ = false

abbrev is_completed : RunStatus → Bool
is_completed completed = true
is_completed _ = false

-- The action by the run's status.
unfoldable pub settle_run : (t₁ t₂ : ℕ) → Run → Result (Run × RecoveryAction)
unfolding complete_or_fail fail_run
settle_run t₁ t₂ r =
    if is_completing r.run_status then complete_or_fail t₁ t₂ r else fail_run t₁ t₂ r

abbrev save_cancelled : Result (StepStatus × Step) → Tx (Unit {0})
save_cancelled (ok (_, t)) s = save_step t s
save_cancelled (err e) s = (ok tt, s)

-- One round of the loop over the active steps; a step that cannot be cancelled is passed over.
unfoldable pub cancel_step : Step → Tx (Unit {0})
unfolding Step.cancel save_step
cancel_step t = do t₁ ← now; t₂ ← now; save_cancelled (Step.cancel t₁ t₂ t)

-- The transaction once the run is known to be stuck.
unfoldable pub settle :
    (correlation_id run_id task_id workspace_id : ℕ) → RunStatus → Run → Tx RecoveryResult
unfolding settle_run save_run list_active_by_run for_each cancel_step draw write commit
settle correlation_id run_id task_id workspace_id previous r = do
  t₁ ← now
  t₂ ← now
  (r', action) ← lift (settle_run t₁ t₂ r)
  save_run r'
  active_steps ← list_active_by_run run_id
  for_each cancel_step active_steps
  event ←
      draw (Events.run_recovered_event run_id task_id workspace_id correlation_id previous action)
  write event
  commit
  pure (done "run" run_id (Run.value previous) action)

-- The guards of `_recover_single_run`.
unfoldable pub recover_loaded_run :
    (correlation_id run_id task_id workspace_id : ℕ) → RunStatus → Option Run → Tx RecoveryResult
unfolding settle
recover_loaded_run correlation_id run_id task_id workspace_id previous none =
    pure (done "run" run_id (Run.value previous) skipped_already_terminal)
recover_loaded_run correlation_id run_id task_id workspace_id previous (some r) =
    if Run.run_terminal r.run_status
    then pure (done "run" run_id (Run.value previous) skipped_already_terminal)
    else if not (stuck_run_status r.run_status)
    then pure (done "run" run_id (Run.value previous) skipped_no_longer_stuck)
    else settle correlation_id run_id task_id workspace_id previous r

unfoldable pub recover_single_run :
    (run_id task_id workspace_id : ℕ) → RunStatus → Tx RecoveryResult
unfolding with_uow get_run recover_loaded_run
recover_single_run run_id task_id workspace_id previous = do
  correlation_id ← uuid4
  try_except
      (with_uow do
        found ← get_run run_id
        recover_loaded_run correlation_id run_id task_id workspace_id previous found)
      (λ e. pure (gave_up "run" run_id (Run.value previous) e))

-- `if task_id: uow.outbox.write(…)`
unfoldable pub announce_step :
    (correlation_id step_id run_id workspace_id : ℕ) → StepStatus → Option Run → Tx (Unit {0})
unfolding draw write
announce_step correlation_id step_id run_id workspace_id previous none = pure tt
announce_step correlation_id step_id run_id workspace_id previous (some r) = do
  event ← draw (
      Events.step_recovered_event step_id run_id r.task_id workspace_id correlation_id previous
        marked_failed)
  write event

-- `error_detail` of a step that the sweep fails.
abbrev sweep_detail : Dict
sweep_detail =
    ("code", text "RECOVERY_SWEEP")
    ∷ ("message", text "Step stuck in running, recovered by sweep")
    ∷ []

-- The transaction once the step is known to be stuck.
unfoldable pub settle_step :
    (correlation_id step_id run_id workspace_id : ℕ) → Step → Tx RecoveryResult
unfolding Step.fail save_step get_run announce_step commit
settle_step correlation_id step_id run_id workspace_id t = do
  t₁ ← now
  t₂ ← now
  (previous, t') ← lift (Step.fail (some sweep_detail) t₁ t₂ t)
  save_step t'
  found ← get_run run_id
  announce_step correlation_id step_id run_id workspace_id previous found
  commit
  pure (done "step" step_id (Step.value previous) marked_failed)

unfoldable pub recover_loaded_step :
    (correlation_id step_id run_id workspace_id : ℕ) → Option Step → Tx RecoveryResult
unfolding settle_step
recover_loaded_step correlation_id step_id run_id workspace_id none =
    pure (done "step" step_id "running" skipped_already_terminal)
recover_loaded_step correlation_id step_id run_id workspace_id (some t) =
    if Step.step_terminal t.step_status
    then pure (done "step" step_id "running" skipped_already_terminal)
    else if not (stuck_step_status t.step_status)
    then pure (done "step" step_id (Step.value t.step_status) skipped_no_longer_stuck)
    else settle_step correlation_id step_id run_id workspace_id t

unfoldable pub recover_single_step : (step_id run_id workspace_id : ℕ) → Tx RecoveryResult
unfolding with_uow get_step recover_loaded_step
recover_single_step step_id run_id workspace_id = do
  correlation_id ← uuid4
  try_except
      (with_uow do
        found ← get_step step_id
        recover_loaded_step correlation_id step_id run_id workspace_id found)
      (λ e. pure (gave_up "step" step_id "running" e))

-- The outcome of a task without an active run, by its latest run.
abbrev pub latest_completed : Option Run → Bool
latest_completed none = false
latest_completed (some r) = is_completed r.run_status

abbrev with_action : RecoveryAction → Result (TaskStatus × Task) → Result (Task × RecoveryAction)
with_action action (ok (_, t)) = ok (t, action)
with_action action (err e) = err e

unfoldable pub settle_task : (t₁ : ℕ) → Option Run → Task → Result (Task × RecoveryAction)
unfolding Task.fail Task.complete
settle_task t₁ latest_run t =
    if latest_completed latest_run
    then with_action marked_completed (Task.complete t₁ t)
    else with_action marked_failed (Task.fail t₁ t)

unfoldable pub settle_orphan :
    (correlation_id task_id workspace_id : ℕ) → Task → Tx (Option RecoveryResult)
unfolding get_latest_by_task settle_task save_task draw write commit
settle_orphan correlation_id task_id workspace_id t = do
  latest_run ← get_latest_by_task task_id
  t₁ ← now
  (t', action) ← lift (settle_task t₁ latest_run t)
  save_task t'
  event ←
      draw
        (Events.task_recovered_event task_id workspace_id correlation_id TaskStatus.running action)
  write event
  commit
  pure (some (done "task" task_id "running" action))

-- `if active_runs: return None`
unfoldable pub unless_active :
    (correlation_id task_id workspace_id : ℕ) → List Run → Task → Tx (Option RecoveryResult)
unfolding settle_orphan
unless_active correlation_id task_id workspace_id active_runs t =
    if is_nil active_runs then settle_orphan correlation_id task_id workspace_id t else pure none

-- The guards of `_recover_single_task`.
unfoldable pub recover_loaded_task :
    (correlation_id task_id workspace_id : ℕ) → Option Task → Tx (Option RecoveryResult)
unfolding list_active_by_task unless_active
recover_loaded_task correlation_id task_id workspace_id none = pure none
recover_loaded_task correlation_id task_id workspace_id (some t) =
    if not (is_running_task t.task_status) then pure none else (do
      active_runs ← list_active_by_task task_id
      unless_active correlation_id task_id workspace_id active_runs t)

unfoldable pub recover_single_task : (task_id workspace_id : ℕ) → Tx (Option RecoveryResult)
unfolding with_uow get_task recover_loaded_task
recover_single_task task_id workspace_id = do
  correlation_id ← uuid4
  try_except
      (with_uow
        do found ← get_task task_id; recover_loaded_task correlation_id task_id workspace_id found)
      (λ e. pure (some (gave_up "task" task_id "running" e)))
