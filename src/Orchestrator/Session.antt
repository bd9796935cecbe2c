-- ===== src/Orchestrator/Session.antt =====
-- The unit of work (infrastructure/db/unit_of_work.py): a transaction over the tables, with the
-- clock readings and the identifiers that the code draws while it runs.
use keviq_core.Prelude.{ℕ, String, Option, List, [], ◌∷◌, ◌++◌}
use keviq_core.Errors.{Result, ok}
use keviq_core.Transaction
unfoldable pub use keviq_core.Transaction.{
  continue, ◌>>=◌, ◌>>◌, now, uuid4, commit, ask, pure, raise, lift, recover, try_except, close,
  with_uow, for_each,
}
use keviq_core.Orchestrator.Task.{Task}
use keviq_core.Orchestrator.Run.{Run}
use keviq_core.Orchestrator.Step.{Step}
use keviq_core.Orchestrator.Approval.{Approval}
use keviq_core.Orchestrator.Events.{OutboxEvent, Draft}

-- What `uow.agent_templates` is asked for.
pub record AgentTemplate : Type 0 where
  pub id : ℕ
  pub default_risk_profile : String

pub record Db : Type 0 where
  pub tasks : List Task
  pub runs : List Run
  pub steps : List Step
  pub approvals : List Approval
  pub agent_templates : List AgentTemplate
  pub outbox : List OutboxEvent

-- What the code asked of another service, in order.
pub data PortCall : Type 0 where
  provisioned : (workspace_id task_id run_id step_id agent_invocation_id : ℕ) → PortCall
  dispatched : (agent_invocation_id : ℕ) (sandbox_id : Option ℕ) → PortCall
  terminated : (sandbox_id : ℕ) (reason : String) → PortCall

abbrev pub Session : Type 0
Session = Transaction.Session Db PortCall

-- Code that may raise; what it did to the session before stays done.
abbrev pub Tx : Type 0 → Type 0
Tx A = Session → Result A × Session

-- An event with its identifier and its time.
unfoldable pub draw : Draft → Tx OutboxEvent
draw draft = do event_id ← uuid4; occurred_at ← now; pure (draft event_id occurred_at)

-- `uow.outbox.write(event)`
unfoldable pub write : OutboxEvent → Tx (Unit {0})
write event s = (ok tt, record s { db = record s.db { outbox = s.db.outbox ++ event ∷ [] } })
