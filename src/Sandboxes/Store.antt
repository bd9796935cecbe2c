-- ===== src/Sandboxes/Store.antt =====
-- apps/execution-service/src: the tables, the unit of work and the repositories of sandboxes and execution
-- attempts (infrastructure/db), and the events of application/events.py. The measured durations and
-- sizes are left out of the events.
pub mod Attempts
use Prim.Native.Char.{code}
use Prim.Native.String.{[] as empty, ◌∷◌ as char}
use keviq_core.Prelude.{
  ◌^◌, ℕ, ◌==◌, String, Bool, false, true, ◌&&◌, ◌||◌, Option, none, some, is_some, overwrite, List,
  [], ◌∷◌, ◌++◌, take, where_test, ltb, not, if◌then◌else◌, ℤ, ℤ_eq,
}
use keviq_core.Prelude.Tables
use keviq_core.Errors.{
  domain_error, sandbox_busy, integrity_error, Result, ok, err, or_raise, raise_if,
}
use keviq_core.Transaction
unfoldable pub use keviq_core.Transaction.{
  continue, ◌>>=◌, ◌>>◌, now, uuid4, commit, ask, pure, raise, lift, recover, try_except, close,
  with_uow,
}
use keviq_core.Sandboxes.Sandbox
use keviq_core.Sandboxes.Sandbox.{
  Sandbox, SandboxStatus, provisioning, ready, executing, idle, Fields, ErrorDetail,
}
use keviq_core.Sandboxes.Contracts.{Json, text, integer, flag, object}

-- `tool_input`
abbrev pub ToolInput : Type 0
ToolInput = List (String × Json Fields)

pub data Payload : Type 0 where
  provision_requested : (sandbox_type : String) → Payload
  provisioned terminated : Payload
  provision_failed : (error_message : Option String) → Payload
  termination_requested : (reason : String) → Payload
  recovered : (previous_status : String) (recovery_action : String) → Payload
  execution_requested : (execution_id : ℕ) (tool_name : String) (attempt_index : ℤ) → Payload
  execution_succeeded :
      (execution_id : ℕ) (tool_name : String) (attempt_index exit_code : ℤ) (truncated : Bool)
      → Payload
  execution_failed :
      (execution_id : ℕ) (tool_name : String) (attempt_index : ℤ)
      (error_code error_message : String) (exit_code : Option ℤ)
      → Payload

pub record OutboxEvent : Type 0 where
  pub payload : Payload
  pub workspace_id : ℕ
  pub correlation_id : ℕ
  pub sandbox_id : ℕ
  pub event_id : ℕ
  pub occurred_at : ℕ

-- A row of `sandbox_attempts`, less the time that the database gives it. A status is its text.
pub record Attempt : Type 0 where
  pub id : ℕ
  pub sandbox_id : ℕ
  pub attempt_index : ℤ
  pub tool_name : String
  pub tool_input : ToolInput
  pub status : String
  pub stdout : Option String
  pub stderr : Option String
  pub exit_code : Option ℤ
  pub truncated : Bool
  pub error_detail : Option ErrorDetail
  pub started_at : Option ℕ
  pub completed_at : Option ℕ

pub record Db : Type 0 where
  pub sandboxes : List Sandbox
  pub attempts : List Attempt
  pub outbox : List OutboxEvent

-- What was asked of the backends.
pub data BackendCall : Type 0 where
  provisions : (sandbox_id : ℕ) (sandbox_type : String) → BackendCall
  terminates : (sandbox_id : ℕ) → BackendCall
  executes : (sandbox_id : ℕ) (command : List String) (timeout_s : ℕ) → BackendCall

abbrev pub Session : Type 0
Session = Transaction.Session Db BackendCall

-- Code that may raise; what it did to the session before stays done.
abbrev pub Tx : Type 0 → Type 0
Tx A = Session → Result A × Session

-- SqlSandboxRepository
unfoldable pub save : Sandbox → Tx (Unit {0})
save b s =
    (ok tt, record s { db = record s.db { sandboxes = Tables.save (λ r. r.id) b s.db.sandboxes } })

unfoldable pub get_by_id : ℕ → Tx (Option Sandbox)
get_by_id id s = (ok (Tables.find (λ r. r.id) id s.db.sandboxes), s)

-- `uow.outbox.write(event(…))`
unfoldable pub write : Payload → (sandbox_id workspace_id correlation_id : ℕ) → Tx (Unit {0})
write payload sandbox_id workspace_id correlation_id = do
  event_id ← uuid4
  occurred_at ← now
  λ s. (
    ok tt,
    record s {
      db = record s.db {
        outbox =
            s.db.outbox
            ++ record {
              payload = payload;
              workspace_id = workspace_id;
              correlation_id = correlation_id;
              sandbox_id = sandbox_id;
              event_id = event_id;
              occurred_at = occurred_at;
            }
              ∷ [];
      };
    },
  )

-- `SqlSandboxRepository.claim_for_execution`: the row is locked until the transaction ends.
abbrev pub claimable : SandboxStatus → Bool
claimable ready = true
claimable idle = true
claimable _ = false

unfoldable pub claim_for_execution : ℕ → Tx Sandbox
unfolding save get_by_id Sandbox.mark_executing
claim_for_execution sandbox_id = do
  found ← get_by_id sandbox_id
  b ← lift (or_raise found domain_error)
  lift (raise_if (not (claimable b.sandbox_status)) sandbox_busy)
  updated ← now
  (_, b') ← lift (Sandbox.mark_executing updated b)
  save b'
  pure b'

-- `statuses` of the sweep
abbrev pub can_be_stuck : SandboxStatus → Bool
can_be_stuck provisioning = true
can_be_stuck executing = true
can_be_stuck _ = false

-- `SqlSandboxRepository.list_stuck`: the oldest 100 rows.
unfoldable pub list_stuck : (stuck_before : ℕ) → Tx (List Sandbox)
list_stuck stuck_before s = (
  ok (
      take 100 (
        Tables.order_by (λ r. r.updated_at)
          (where_test (λ r. can_be_stuck r.sandbox_status && ltb r.updated_at stuck_before)
            s.db.sandboxes))),
  s,
)

-- The dict that is given to `SqlExecutionAttemptRepository.save`; a missing key is `none`.
pub record AttemptData : Type 0 where
  pub id : ℕ
  pub sandbox_id : ℕ
  pub attempt_index : ℤ
  pub tool_name : String
  pub tool_input : ToolInput
  pub status : String
  pub stdout : Option String
  pub stderr : Option String
  pub exit_code : Option ℤ
  pub truncated : Option Bool
  pub error_detail : Option ErrorDetail
  pub started_at : Option ℕ
  pub completed_at : Option ℕ

abbrev pub given : Option Bool → Bool → Bool
given none old = old
given (some b) _ = b

-- `VALUES (…)`: a column that is not given has its default.
abbrev pub insert_row : AttemptData → Attempt
insert_row d = record {
  id = d.id;
  sandbox_id = d.sandbox_id;
  attempt_index = d.attempt_index;
  tool_name = d.tool_name;
  tool_input = d.tool_input;
  status = d.status;
  stdout = d.stdout;
  stderr = d.stderr;
  exit_code = d.exit_code;
  truncated = given d.truncated false;
  error_detail = d.error_detail;
  started_at = d.started_at;
  completed_at = d.completed_at;
}

-- `DO UPDATE SET …`: the given columns but `id`.
abbrev pub update_row : AttemptData → Attempt → Attempt
update_row d r = record {
  id = r.id;
  sandbox_id = d.sandbox_id;
  attempt_index = d.attempt_index;
  tool_name = d.tool_name;
  tool_input = d.tool_input;
  status = d.status;
  stdout = overwrite d.stdout r.stdout;
  stderr = overwrite d.stderr r.stderr;
  exit_code = overwrite d.exit_code r.exit_code;
  truncated = given d.truncated r.truncated;
  error_detail = overwrite d.error_detail r.error_detail;
  started_at = overwrite d.started_at r.started_at;
  completed_at = overwrite d.completed_at r.completed_at;
}

-- `uq_sandbox_attempts_sandbox_attempt`
abbrev pub is_attempt : (sandbox_id : ℕ) (attempt_index : ℤ) → Attempt → Bool
is_attempt sandbox_id attempt_index r =
    (r.sandbox_id == sandbox_id) && ℤ_eq r.attempt_index attempt_index

-- `SqlExecutionAttemptRepository.get_by_sandbox_and_index`
unfoldable pub find_attempt : (sandbox_id : ℕ) (attempt_index : ℤ) → List Attempt → Option Attempt
find_attempt sandbox_id attempt_index [] = none
find_attempt sandbox_id attempt_index (r ∷ rows) =
    if is_attempt sandbox_id attempt_index r
    then some r
    else find_attempt sandbox_id attempt_index rows

unfoldable pub upsert : AttemptData → List Attempt → List Attempt
upsert d [] = insert_row d ∷ []
upsert d (r ∷ rows) =
    if is_attempt d.sandbox_id d.attempt_index r then update_row d r ∷ rows else r ∷ upsert d rows

-- A NUL, which the columns of texts and of JSON refuse.
unfoldable pub has_nul : String → Bool
has_nul empty = false
has_nul (char c s) = (code c == 0) || has_nul s

-- An `Integer` column has 32 bits.
abbrev pub fits_integer : ℤ → Bool
fits_integer (ℤ.pos n) = ltb n (2 ^ 31)
fits_integer (ℤ.negsuc n) = ltb n (2 ^ 31)

unfoldable fields_storable : Fields → Bool
unfolding has_nul
fields_storable [] = true
fields_storable ((k, v) ∷ d) = not (has_nul k) && not (has_nul v) && fields_storable d

abbrev value_storable : Json Fields → Bool
value_storable (text s) = not (has_nul s)
value_storable (integer i) = true
value_storable (flag b) = true
value_storable (object o) = fields_storable o

unfoldable pub input_storable : ToolInput → Bool
unfolding has_nul fields_storable
input_storable [] = true
input_storable ((k, v) ∷ d) = not (has_nul k) && value_storable v && input_storable d

abbrev pub text_storable : Option String → Bool
text_storable none = true
text_storable (some s) = not (has_nul s)

abbrev pub integer_storable : Option ℤ → Bool
integer_storable none = true
integer_storable (some i) = fits_integer i

abbrev pub detail_storable : Option ErrorDetail → Bool
detail_storable none = true
detail_storable (some e) = not (has_nul e.message)

-- The values fit the columns of `sandbox_attempts`; the name, the status and the error's code are written in the
-- code.
abbrev pub is_storable : AttemptData → Bool
is_storable d =
    fits_integer d.attempt_index
    && input_storable d.tool_input
    && text_storable d.stdout
    && text_storable d.stderr
    && integer_storable d.exit_code
    && detail_storable d.error_detail

-- A new row needs a fresh primary key and an existing sandbox.
abbrev pub is_clash : AttemptData → Db → Bool
is_clash d db =
    not (is_some (find_attempt d.sandbox_id d.attempt_index db.attempts))
    && (is_some (Tables.find (λ r. r.id) d.id db.attempts)
        || not (is_some (Tables.find (λ r. r.id) d.sandbox_id db.sandboxes)))

abbrev pub refused : AttemptData → Db → Bool
refused d db = not (is_storable d) || is_clash d db

-- `SqlExecutionAttemptRepository.save`
unfoldable pub save_attempt : AttemptData → Tx (Unit {0})
unfolding find_attempt upsert
save_attempt d s =
    if refused d s.db
    then (err integrity_error, s)
    else (ok tt, record s { db = record s.db { attempts = upsert d s.db.attempts } })

-- `SqlExecutionAttemptRepository.get`
unfoldable pub get_attempt : ℕ → Tx (Option Attempt)
get_attempt attempt_id s = (ok (Tables.find (λ r. r.id) attempt_id s.db.attempts), s)
