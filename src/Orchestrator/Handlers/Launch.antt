-- ===== src/Orchestrator/Handlers/Launch.antt =====
-- What a launch asks of a task, and what a retry does not.
use keviq_core.Prelude.{ℕ, ◌≡◌, true, false, some, is_some, is_blank, arith}
use keviq_core.Errors.{domain_validation, ok, err}
use keviq_core.Orchestrator.Task
use keviq_core.Orchestrator.Task.{Task, TaskStatus, draft, pending, failed}
use keviq_core.Orchestrator.Task.Brief.{IsSound}
use keviq_core.Orchestrator.Session.{Session}
use keviq_core.Orchestrator.Handlers.{handle_launch_task, handle_retry_task, no_risk}
use keviq_core.Orchestrator.Handlers.Commands.{stored}

-- The fields that a launch requires.
pub record IsReady (t : Task) : Type 0 where
  pub drafted : t.task_status ≡ draft
  pub titled : is_blank t.title ≡ false
  pub aimed : Task.is_missing t.goal ≡ false
  pub described : Task.is_missing t.desired_output ≡ false
  pub staffed : is_some t.agent_template_id ≡ true

-- A stored draft that is sound and ready and has a risk level of its own is launched: the call
-- returns it as pending.
pub launch-returns :
    (id by : ℕ) (s : Session) (t : Task)
    → stored s id ≡ some t
    → IsSound t
    → IsReady t
    → no_risk t.risk_level ≡ false
    → (handle_launch_task id by s).0
      ≡ ok (record t { task_status = pending; updated_at = s.clock s.reads })
unfolding handle_launch_task
launch-returns id by s t f v r n = ground arith

-- A stored sound draft that lacks its goal cannot be launched, but a retry submits it all the same.
pub retry-skips_readiness :
    (id by : ℕ) (s : Session) (t : Task)
    → stored s id ≡ some t
    → IsSound t
    → t.task_status ≡ draft
    → Task.is_missing t.goal ≡ true
    → ((handle_launch_task id by s).0 ≡ err domain_validation)
      × ((handle_retry_task id by s).0
          ≡ ok (record t { task_status = pending; updated_at = s.clock s.reads }))
unfolding handle_launch_task handle_retry_task
retry-skips_readiness id by s t f v d m = (ground arith, ground arith)
