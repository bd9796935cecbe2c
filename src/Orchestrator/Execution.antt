-- ===== src/Orchestrator/Execution.antt =====
-- apps/orchestrator/src/application/execution_loop.py: one task from pending to its end, through
-- one run with one step. The two other services are arguments: what they answer, or the exception
-- that the call raises. `meanwhile` is what other transactions commit while the code waits for them.
pub mod Finish
pub mod Late
use Prim.Native.String.{◌++◌}
use keviq_core.Prelude.{
  ℕ, String, Bool, true, false, not, ◌&&◌, Option, none, some, List, [], ◌∷◌, str_eq, is_empty,
  if◌then◌else◌,
}
use mathlib.Core.List.{◌++◌ as append}
use keviq_core.Errors.{Error, value_error, runtime_error, Result, ok, err, or_raise, raise_if}
use keviq_core.Orchestrator.Task
use keviq_core.Orchestrator.Task.{Task, TaskStatus, Dict, text, uuid, number, flag}
use keviq_core.Orchestrator.Run
use keviq_core.Orchestrator.Run.{Run, manual}
use keviq_core.Orchestrator.Step
use keviq_core.Orchestrator.Step.{Step, agent_invocation}
use keviq_core.Orchestrator.Events
use keviq_core.Orchestrator.Events.{OutboxEvent}
use keviq_core.Orchestrator.Session.{
  Db, Session, Tx, ◌>>=◌, ◌>>◌, pure, lift, now, uuid4, commit, with_uow, draw, write, ask,
  provisioned, dispatched, terminated,
}
use keviq_core.Orchestrator.Moves.{once, twice, move_task, move_run, move_step}
use keviq_core.Orchestrator.Repositories.{
  save_task, get_task, save_run, get_run, save_step, get_step,
}

-- `RuntimeExecutionResult` of ports.py
pub record RuntimeResult : Type 0 where
  pub agent_invocation_id : ℕ
  pub status : String
  pub output_text : String
  pub error_code : Option String
  pub error_message : Option String
  pub retryable : Bool
  pub prompt_tokens : ℕ
  pub completion_tokens : ℕ

unfoldable pub is_success : RuntimeResult → Bool
is_success r = str_eq r.status "completed"

unfoldable pub is_timeout : RuntimeResult → Bool
is_timeout r = str_eq r.status "timed_out"

-- The answer of another service, or the name and the text of the exception.
pub data Reply (A : Type 0) : Type 0 where
  answered : A → Reply A
  raised : (name message : String) → Reply A

-- `RuntimeExecutionResult(…, status="failed", …)` with the defaults of the other fields.
abbrev pub failure : (agent_invocation_id : ℕ) (error_code error_message : String) → RuntimeResult
failure agent_invocation_id error_code error_message = record {
  agent_invocation_id = agent_invocation_id;
  status = "failed";
  output_text = "";
  error_code = some error_code;
  error_message = some error_message;
  retryable = false;
  prompt_tokens = 0;
  completion_tokens = 0;
}

-- The result after `except Exception as exc` around the dispatch.
unfoldable pub dispatch_result : (agent_invocation_id : ℕ) → Reply RuntimeResult → RuntimeResult
dispatch_result agent_invocation_id (answered r) = r
dispatch_result agent_invocation_id (raised name message) =
    failure agent_invocation_id "DISPATCH_ERROR" ("Unexpected dispatch error: " ++ name)

-- `_map_termination_reason`
unfoldable pub map_termination_reason : RuntimeResult → String
unfolding is_success is_timeout
map_termination_reason r =
    if is_success r then "completed" else if is_timeout r then "timeout" else "error"

-- `a or b` on an optional text: an empty text counts as none.
abbrev pub text_or : Option String → String → String
text_or none other = other
text_or (some s) other = if is_empty s then other else s

-- `output_snapshot` of a step that is completed.
abbrev output_of : RuntimeResult → Dict
output_of result =
    ("output_text", text result.output_text)
    ∷ ("agent_invocation_id", uuid result.agent_invocation_id)
    ∷ ("prompt_tokens", number result.prompt_tokens)
    ∷ ("completion_tokens", number result.completion_tokens)
    ∷ []

-- `_handle_success`: each block of the source that moves, saves and announces is one line of moves.
unfoldable pub handle_success :
    Task
    → Run
    → Step
    → RuntimeResult
    → (correlation_id : ℕ) → (step_started : OutboxEvent) → Tx (Unit {0})
handle_success task run step result correlation_id step_started = do
  (step', step_completed) ←
      move_step (twice λ t₁ t₂. Step.complete (output_of result) t₁ t₂ step) λ q.
        Events.step_completed_event q.id run.id task.id task.workspace_id correlation_id
          (some step_started.event_id)
  (run₁, run_completing) ← move_run (once λ t₁. Run.begin_completing t₁ run) λ r.
      Events.run_completing_event r.id task.id task.workspace_id correlation_id
        (some step_completed.event_id)
  (run₂, run_completed) ← move_run (twice λ t₁ t₂. Run.complete t₁ t₂ run₁) λ r.
      Events.run_completed_event r.id task.id task.workspace_id correlation_id r.duration_ms
        (some run_completing.event_id)
  (task', task_completed) ← move_task (once λ t₁. Task.complete t₁ task) λ t.
      Events.task_completed_event t.id t.workspace_id correlation_id (some run_completed.event_id)
  pure tt

-- `result.error_message or result.error_code or "Unknown error"`
abbrev failure_summary : RuntimeResult → String
failure_summary result = text_or result.error_message (text_or result.error_code "Unknown error")

-- `error_detail` of a step that failed.
abbrev failure_detail : RuntimeResult → Dict
failure_detail result =
    ("error_code", text (text_or result.error_code "UNKNOWN"))
    ∷ ("error_message", text (text_or result.error_message ""))
    ∷ ("agent_invocation_id", uuid result.agent_invocation_id)
    ∷ ("retryable", flag result.retryable)
    ∷ []

unfoldable pub handle_failure :
    Task
    → Run
    → Step
    → RuntimeResult
    → (correlation_id : ℕ) → (step_started : OutboxEvent) → Tx (Unit {0})
handle_failure task run step result correlation_id step_started = do
  (step', step_failed) ←
      move_step (twice λ t₁ t₂. Step.fail (some (failure_detail result)) t₁ t₂ step) λ q.
        Events.step_failed_event q.id run.id task.id task.workspace_id correlation_id
          result.error_code result.error_message (some step_started.event_id)
  (run', run_failed) ←
      move_run (twice λ t₁ t₂. Run.fail (some (failure_summary result)) t₁ t₂ run) λ r.
        Events.run_failed_event r.id task.id task.workspace_id correlation_id
          (some (failure_summary result)) (some step_failed.event_id)
  (task', task_failed) ← move_task (once λ t₁. Task.fail t₁ task) λ t.
      Events.task_failed_event t.id t.workspace_id correlation_id (some (failure_summary result))
        (some run_failed.event_id)
  pure tt

-- `f"TIMEOUT: {message}" if message else "Execution timed out"`
abbrev timeout_summary : Option String → String
timeout_summary none = "Execution timed out"
timeout_summary (some s) = if is_empty s then "Execution timed out" else "TIMEOUT: " ++ s

-- `error_detail` of a step that timed out.
abbrev timeout_detail : RuntimeResult → Dict
timeout_detail result =
    ("error_code", text "TIMEOUT")
    ∷ ("error_message", text (text_or result.error_message "Execution timed out"))
    ∷ ("agent_invocation_id", uuid result.agent_invocation_id)
    ∷ []

unfoldable pub handle_timeout :
    Task
    → Run
    → Step
    → RuntimeResult
    → (correlation_id : ℕ) → (step_started : OutboxEvent) → Tx (Unit {0})
handle_timeout task run step result correlation_id step_started = do
  (step', step_failed) ←
      move_step (twice λ t₁ t₂. Step.fail (some (timeout_detail result)) t₁ t₂ step) λ q.
        Events.step_failed_event q.id run.id task.id task.workspace_id correlation_id
          (some "TIMEOUT") result.error_message (some step_started.event_id)
  (run', run_timed_out) ← move_run (twice λ t₁ t₂. Run.time_out t₁ t₂ run) λ r.
      Events.run_timed_out_event r.id task.id task.workspace_id correlation_id
        (some step_failed.event_id)
  (task', task_failed) ← move_task (once λ t₁. Task.fail t₁ task) λ t.
      Events.task_failed_event t.id t.workspace_id correlation_id
        (some (timeout_summary result.error_message)) (some run_timed_out.event_id)
  pure tt

-- The choice that `_finalize_execution` makes by the result.
unfoldable pub handle_result :
    Task
    → Run
    → Step
    → RuntimeResult
    → (correlation_id : ℕ) → (step_started : OutboxEvent) → Tx (Unit {0})
unfolding is_success is_timeout
handle_result task run step result correlation_id step_started =
    if is_success result
    then handle_success task run step result correlation_id step_started
    else if is_timeout result
    then handle_timeout task run step result correlation_id step_started
    else handle_failure task run step result correlation_id step_started

unfoldable pub finalize_execution :
    (task_id run_id step_id : ℕ)
    → RuntimeResult
    → (correlation_id : ℕ) → (step_started : OutboxEvent) → Tx (Unit {0})
unfolding with_uow commit get_task get_run get_step
finalize_execution task_id run_id step_id result correlation_id step_started = with_uow do
  found_task ← get_task task_id
  found_run ← get_run run_id
  found_step ← get_step step_id
  task ← lift (or_raise found_task runtime_error)
  run ← lift (or_raise found_run runtime_error)
  step ← lift (or_raise found_step runtime_error)
  handle_result task run step result correlation_id step_started
  commit
