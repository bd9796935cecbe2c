-- ===== src/Orchestrator/Recovery/Sweep.antt =====
-- The loops of the sweep.
use keviq_core.Prelude.{ℕ, ◌-◌, ◌*◌, Bool, true, false, Option, none, some, List, [], ◌∷◌, ◌++◌}
use keviq_core.Orchestrator.Run.{RunStatus, preparing, running, completing}
use keviq_core.Orchestrator.Session.{Tx, ◌>>=◌, pure, now, with_uow}
use keviq_core.Orchestrator.Repositories.{list_running, list_stuck_runs, list_stuck_steps}
use keviq_core.Orchestrator.Recovery.{
  RecoveryResult, stuck_step_status, recover_single_run, recover_single_step, recover_single_task,
}

abbrev is_preparing : RunStatus → Bool
is_preparing preparing = true
is_preparing _ = false

abbrev is_running : RunStatus → Bool
is_running running = true
is_running _ = false

abbrev is_completing : RunStatus → Bool
is_completing completing = true
is_completing _ = false

-- `now - timedelta(minutes=…)`, in microseconds
abbrev cutoff : (now minutes : ℕ) → ℕ
cutoff now minutes = now - minutes * 60_000_000

-- `for item in items: results.append(recover(item))`
unfoldable pub collect : {A B : Type 0} → (A → Tx B) → List A → Tx (List B)
collect recover [] = pure []
collect recover (a ∷ rest) = do
  result ← recover a
  results ← collect recover rest
  pure (result ∷ results)

unfoldable pub recover_stuck_runs :
    (preparing_minutes running_minutes completing_minutes : ℕ) → Tx (List RecoveryResult)
unfolding with_uow list_stuck_runs collect recover_single_run
recover_stuck_runs preparing_minutes running_minutes completing_minutes = do
  t ← now
  stuck ← with_uow do
    in_preparing ← list_stuck_runs (cutoff t preparing_minutes) is_preparing
    in_running ← list_stuck_runs (cutoff t running_minutes) is_running
    in_completing ← list_stuck_runs (cutoff t completing_minutes) is_completing
    pure (in_preparing ++ (in_running ++ in_completing))
  collect (λ r. recover_single_run r.id r.task_id r.workspace_id r.run_status) stuck

unfoldable pub recover_stuck_steps : (step_running_minutes : ℕ) → Tx (List RecoveryResult)
unfolding with_uow list_stuck_steps collect recover_single_step
recover_stuck_steps step_running_minutes = do
  t ← now
  stuck ← with_uow (list_stuck_steps (cutoff t step_running_minutes) stuck_step_status)
  collect (λ q. recover_single_step q.id q.run_id q.workspace_id) stuck

-- `if result is not None: results.append(result)`
abbrev somes : List (Option RecoveryResult) → List RecoveryResult
somes [] = []
somes (none ∷ rest) = somes rest
somes (some r ∷ rest) = r ∷ somes rest

unfoldable pub recover_orphaned_tasks : Tx (List RecoveryResult)
unfolding with_uow list_running collect recover_single_task
recover_orphaned_tasks = do
  running_tasks ← with_uow list_running
  results ← collect (λ t. recover_single_task t.id t.workspace_id) running_tasks
  pure (somes results)

-- `recover_stuck_entities`, by its four thresholds in minutes.
unfoldable pub recover_stuck_entities :
    (preparing_minutes running_minutes completing_minutes step_running_minutes : ℕ)
    → Tx (List RecoveryResult)
unfolding recover_stuck_runs recover_stuck_steps recover_orphaned_tasks
recover_stuck_entities preparing_minutes running_minutes completing_minutes step_running_minutes =
    do
      runs ← recover_stuck_runs preparing_minutes running_minutes completing_minutes
      steps ← recover_stuck_steps step_running_minutes
      tasks ← recover_orphaned_tasks
      pure (runs ++ (steps ++ tasks))
