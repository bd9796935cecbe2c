-- ===== src/Orchestrator/Examples/Executions.antt =====
-- The execution, the cancellation and the finalization, at concrete tables.
use keviq_core.Prelude.{◌≡◌, refl, [], ◌∷◌}
use keviq_core.Orchestrator.Task.{TaskStatus}
use keviq_core.Prelude.Doubles
use keviq_core.Orchestrator.Run
use keviq_core.Orchestrator.Run.{RunStatus}
use keviq_core.Orchestrator.Step.{StepStatus}
use keviq_core.Orchestrator.Session.{Session}
use keviq_core.Orchestrator.Moves.{Returns}
use keviq_core.Orchestrator.Execution.{finalize_execution}
use keviq_core.Orchestrator.Execution.Finish.{Finished, finalize-ends}
use keviq_core.Orchestrator.Execution.Late.{finalize-over}
use keviq_core.Errors.{err, terminal_state}
use keviq_core.Orchestrator.Dispatch.{run_real_execution}
use keviq_core.Orchestrator.Dispatch.Atomic.{Executed, run_real_execution-ends}
use keviq_core.Orchestrator.Cancellation.{handle_cancel_task}
use keviq_core.Orchestrator.Cancellation.Cascade.{Cancels, handle_cancel_task-Cancels}
use keviq_core.Orchestrator.Samples.{
  some_task, some_run, some_step, session, calm, success, some_event, task_at-session,
  run_at-session, step_at-session, some_task-IsSound,
}

abbrev waiting : Session
waiting = record (session (some_task TaskStatus.pending ∷ []) [] []) { clock = λ n. 100 }

abbrev busy : Session
busy =
    session (some_task TaskStatus.running ∷ []) (some_run RunStatus.running ∷ [])
      (some_step StepStatus.running ∷ [])

run_real_execution-ends_example :
    Returns (Executed calm 1 waiting) (run_real_execution calm 1 waiting)
unfolding Run.compute_duration Doubles.milliseconds
run_real_execution-ends_example =
    run_real_execution-ends calm 1 (some_task TaskStatus.pending) waiting
      (task_at-session TaskStatus.pending [] [] []) (some_task-IsSound TaskStatus.pending) refl
      (λ d. refl) (λ m n. refl)

finalize-ends_example :
    Returns
      (Finished 1 2 3 (some_run RunStatus.running) (some_step StepStatus.running) success busy)
      (finalize_execution 1 2 3 success 50 some_event busy)
unfolding Run.compute_duration
finalize-ends_example =
    finalize-ends 1 2 3 (some_task TaskStatus.running) (some_run RunStatus.running)
      (some_step StepStatus.running) success 50 some_event busy
      (record {
        at_task =
            task_at-session TaskStatus.running [] (some_run RunStatus.running ∷ [])
              (some_step StepStatus.running ∷ []);
        at_run =
            run_at-session RunStatus.running (some_task TaskStatus.running ∷ []) []
              (some_step StepStatus.running ∷ []);
        at_step =
            step_at-session StepStatus.running (some_task TaskStatus.running ∷ [])
              (some_run RunStatus.running ∷ []) [];
        sound = some_task-IsSound TaskStatus.running;
        numbered = refl;
        task_running = refl;
        run_running = refl;
        step_running = refl;
      })
      (record { measured = refl; at = λ n. refl })

handle_cancel_task-Cancels_example :
    Returns (λ _ s'. Cancels 1 busy.committed s'.committed) (handle_cancel_task 1 9 busy)
unfolding Run.compute_duration
handle_cancel_task-Cancels_example =
    handle_cancel_task-Cancels 1 9 (some_task TaskStatus.running) busy
      (task_at-session TaskStatus.running [] (some_run RunStatus.running ∷ [])
        (some_step StepStatus.running ∷ []))
      (some_task-IsSound TaskStatus.running) refl (refl, tt) ((λ _. (refl, λ n. refl)), tt)

-- The step was cancelled while the agent worked.
abbrev interrupted : Session
interrupted =
    session (some_task TaskStatus.cancelled ∷ []) (some_run RunStatus.cancelled ∷ [])
      (some_step StepStatus.cancelled ∷ [])

finalize-over_example :
    ((finalize_execution 1 2 3 success 50 some_event interrupted).0 ≡ err terminal_state)
    × ((finalize_execution 1 2 3 success 50 some_event interrupted).1.committed
        ≡ interrupted.committed)
finalize-over_example =
    finalize-over 1 2 3 (some_task TaskStatus.cancelled) (some_run RunStatus.cancelled)
      (some_step StepStatus.cancelled) success 50 some_event interrupted
      (task_at-session TaskStatus.cancelled [] (some_run RunStatus.cancelled ∷ [])
        (some_step StepStatus.cancelled ∷ []))
      (run_at-session RunStatus.cancelled (some_task TaskStatus.cancelled ∷ []) []
        (some_step StepStatus.cancelled ∷ []))
      (step_at-session StepStatus.cancelled (some_task TaskStatus.cancelled ∷ [])
        (some_run RunStatus.cancelled ∷ []) [])
      (some_task-IsSound TaskStatus.cancelled) refl refl
