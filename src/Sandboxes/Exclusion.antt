-- ===== src/Sandboxes/Exclusion.antt =====
-- The transactions of execution-service's callers, interleaved: every request runs its own transactions, and
-- those of others may come between them. A transaction is one step:
-- a claim and a recovery lock the row of the sandbox, and overlaps of the others are left out.
pub mod Counts
pub mod Writes
pub mod Invariant
pub mod Single
use keviq_core.Prelude.{
  String, ℕ, zero, suc, ◌<◌, ◌==◌, ◌≡◌, Option, none, some, List, [], ◌∷◌, Bool, if◌then◌else◌,
}
use keviq_core.Prelude.Tables
use keviq_core.Errors.{Error, Result, ok, err}
use keviq_core.Sandboxes.Sandbox.{Sandbox, SandboxStatus, provisioning, terminated}
use keviq_core.Sandboxes.Contracts.{SandboxTerminationRequest}
use keviq_core.Sandboxes.Store.{Db, Session, AttemptData, Payload}
use keviq_core.Sandboxes.Provisioning.{persist, begin_termination}
use keviq_core.Sandboxes.Tools.{ToolDefinition}
use keviq_core.Sandboxes.Execution.{Request, claim, settle}
use keviq_core.Sandboxes.Recovery.{recover_single_sandbox}

unfoldable pub count : ℕ → List ℕ → ℕ
count id [] = 0
count id (x ∷ xs) = if x == id then suc (count id xs) else count id xs

unfoldable pub remove_one : ℕ → List ℕ → List ℕ
remove_one id [] = []
remove_one id (x ∷ xs) = if x == id then xs else x ∷ remove_one id xs

unfoldable pub remove_all : ℕ → List ℕ → List ℕ
remove_all id [] = []
remove_all id (x ∷ xs) = let rest = remove_all id xs in if x == id then rest else x ∷ rest

-- The tables, the sandboxes of the executions between their two transactions, and the sandboxes of the
-- provisionings between theirs.
pub record System : Type 0 where
  pub tables : Db
  pub running : List ℕ
  pub pending : List ℕ

module _ (show_error : Error → String) (is_alive : ℕ → Result Bool)
    (backend_terminate : ℕ → Result (Unit {0})) where
  -- One transaction of one caller, who has a clock and identifiers of their own.
  pub data Step (x y : System) : Type 0 where
    claims :
        (q : Request) (tool : ToolDefinition) (execution_id correlation_id start : ℕ) (b : Sandbox)
        (s : Session)
        → s.committed ≡ x.tables
        → (claim q tool execution_id correlation_id start s).0 ≡ ok b
        → y ≡ record x {
          tables = (claim q tool execution_id correlation_id start s).1.committed;
          running = q.sandbox_id ∷ x.running;
        }
        → Step x y
    is_refused :
        (q : Request) (tool : ToolDefinition) (execution_id correlation_id start : ℕ) (e : Error)
        (s : Session)
        → s.committed ≡ x.tables
        → (claim q tool execution_id correlation_id start s).0 ≡ err e
        → y ≡ record x { tables = (claim q tool execution_id correlation_id start s).1.committed }
        → Step x y
    settles :
        (q : Request) (workspace_id correlation_id : ℕ) (d : AttemptData) (payload : Payload)
        (s : Session)
        → s.committed ≡ x.tables
        → 0 < count q.sandbox_id x.running
        → y ≡ record x {
          tables = (settle q workspace_id correlation_id d payload s).1.committed;
          running = remove_one q.sandbox_id x.running;
        }
        → Step x y
    recovers :
        (id workspace_id : ℕ) (previous : SandboxStatus) (s : Session)
        → s.committed ≡ x.tables
        → y ≡ record x {
          tables =
              (recover_single_sandbox show_error is_alive backend_terminate id workspace_id previous
                s).1.committed;
        }
        → Step x y
    begins_termination :
        (r : SandboxTerminationRequest) (correlation_id : ℕ) (s : Session)
        → s.committed ≡ x.tables
        → y ≡ record x { tables = (begin_termination r correlation_id s).1.committed }
        → Step x y
    ends_termination :
        (b : Sandbox) (payload : Payload) (correlation_id : ℕ) (s : Session)
        → s.committed ≡ x.tables
        → b.sandbox_status ≡ terminated
        → y ≡ record x { tables = (persist b payload correlation_id s).1.committed }
        → Step x y
    -- The identifier is new.
    provisions :
        (b : Sandbox) (payload : Payload) (correlation_id : ℕ) (s : Session)
        → s.committed ≡ x.tables
        → b.sandbox_status ≡ provisioning
        → Tables.find (λ r. r.id) b.id x.tables.sandboxes ≡ none
        → y ≡ record x {
          tables = (persist b payload correlation_id s).1.committed;
          pending = b.id ∷ x.pending;
        }
        → Step x y
    -- The sandbox is saved as the provisioning has it in hand, whatever is stored.
    ends_provisioning :
        (b : Sandbox) (payload : Payload) (correlation_id : ℕ) (s : Session)
        → s.committed ≡ x.tables
        → 0 < count b.id x.pending
        → y ≡ record x {
          tables = (persist b payload correlation_id s).1.committed;
          pending = remove_all b.id x.pending;
        }
        → Step x y

  -- What comes of tables where nothing is in flight.
  pub data Reach : System → Type 0 where
    idle_from : (tables : Db) → Reach (record { tables = tables; running = []; pending = [] })
    next : {x y : System} → Reach x → Step x y → Reach y
