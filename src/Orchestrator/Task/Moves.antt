-- ===== src/Orchestrator/Task/Moves.antt =====
-- The moves of a task that the other components make, as equations.
use keviq_core.Prelude.{ℕ, ◌≡◌, arith}
use keviq_core.Errors.{ok}
use keviq_core.Orchestrator.Task
use keviq_core.Orchestrator.Task.{Task, pending, running, completed, failed}

module _ (t : Task) (now : ℕ) where
  pub start-pending :
      t.task_status ≡ pending
      → Task.start now t ≡ ok (pending, record t { task_status = running; updated_at = now })
  unfolding Task.start
  start-pending h = ground arith

  pub complete-running :
      t.task_status ≡ running
      → Task.complete now t ≡ ok (running, record t { task_status = completed; updated_at = now })
  unfolding Task.complete
  complete-running h = ground arith

  pub fail-running :
      t.task_status ≡ running
      → Task.fail now t ≡ ok (running, record t { task_status = failed; updated_at = now })
  unfolding Task.fail
  fail-running h = ground arith
