-- ===== src/Orchestrator/Run/Moves.antt =====
-- The moves of a run that the other components make, as equations.
use keviq_core.Prelude.{ℕ, String, ◌≡◌, true, Option, some, or_else, arith}
use keviq_core.Errors.{ok}
use keviq_core.Orchestrator.Run
use keviq_core.Orchestrator.Run.{
  Run, RunStatus, queued, preparing, running, completing, completed, failed, timed_out, cancelled,
  compute_duration, summary_or,
}

module _ (r : Run) (t u : ℕ) where
  pub prepare-queued :
      r.run_status ≡ queued
      → Run.prepare t r
        ≡ ok (queued, record r { run_status = preparing; updated_at = t; config_locked = true })
  unfolding Run.prepare
  prepare-queued h = ground arith

  pub start-preparing :
      r.run_status ≡ preparing
      → Run.start t u r
        ≡ ok (
          preparing,
          record r {
            run_status = running;
            updated_at = t;
            started_at = some (or_else r.started_at u);
          },
        )
  unfolding Run.start
  start-preparing h = ground arith

  pub begin_completing-running :
      r.run_status ≡ running
      → Run.begin_completing t r
        ≡ ok (running, record r { run_status = completing; updated_at = t })
  unfolding Run.begin_completing
  begin_completing-running h = ground arith

  pub complete-completing :
      r.run_status ≡ completing
      → Run.complete t u r
        ≡ ok (
          completing,
          record r {
            run_status = completed;
            updated_at = t;
            completed_at = some u;
            duration_ms = compute_duration r.started_at u;
          },
        )
  unfolding Run.complete
  complete-completing h = ground arith

  pub fail-running :
      (summary : Option String)
      → r.run_status ≡ running
      → Run.fail summary t u r
        ≡ ok (
          running,
          record r {
            run_status = failed;
            updated_at = t;
            completed_at = some u;
            duration_ms = compute_duration r.started_at u;
            error_summary = summary_or summary r.error_summary;
          },
        )
  unfolding Run.fail
  fail-running summary h = ground arith

  pub time_out-running :
      r.run_status ≡ running
      → Run.time_out t u r
        ≡ ok (
          running,
          record r {
            run_status = timed_out;
            updated_at = t;
            completed_at = some u;
            duration_ms = compute_duration r.started_at u;
          },
        )
  unfolding Run.time_out
  time_out-running h = ground arith
