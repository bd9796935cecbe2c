-- ===== src/Orchestrator/Step/Moves.antt =====
-- The moves of a step that the other components make, as equations.
use keviq_core.Prelude.{ℕ, ◌≡◌, Option, some, overwrite, arith}
use keviq_core.Errors.{ok}
use keviq_core.Orchestrator.Task.{Dict}
use keviq_core.Orchestrator.Step
use keviq_core.Orchestrator.Step.{Step, pending, running, completed, failed}

module _ (q : Step) (t u : ℕ) where
  pub start-pending :
      (input : Option Dict)
      → q.step_status ≡ pending
      → Step.start input t u q
        ≡ ok (
          pending,
          record q {
            step_status = running;
            updated_at = t;
            started_at = some u;
            input_snapshot = overwrite input q.input_snapshot;
          },
        )
  unfolding Step.start
  start-pending input h = ground arith

  pub complete-running :
      (output : Dict)
      → q.step_status ≡ running
      → Step.complete output t u q
        ≡ ok (
          running,
          record q {
            step_status = completed;
            updated_at = t;
            completed_at = some u;
            output_snapshot = some output;
          },
        )
  unfolding Step.complete
  complete-running output h = ground arith

  pub fail-running :
      (detail : Option Dict)
      → q.step_status ≡ running
      → Step.fail detail t u q
        ≡ ok (
          running,
          record q {
            step_status = failed;
            updated_at = t;
            completed_at = some u;
            error_detail = overwrite detail q.error_detail;
          },
        )
  unfolding Step.fail
  fail-running detail h = ground arith
