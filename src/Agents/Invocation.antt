-- ===== src/Agents/Invocation.antt =====
-- apps/agent-runtime/src/domain/agent_invocation.py, and the values that an invocation carries. Times are
-- in microseconds; each `now` is one reading of the clock. A cost stands as its printed form.
pub mod Lifecycle
use keviq_core.Prelude.{
  ℕ, String, Bool, true, false, not, Option, none, some, List, is_blank, or_else, overwrite,
}
use keviq_core.Errors.{domain_validation, invalid_transition, Result, ok, ◌>>=◌, ◌>>◌, raise_if}
use keviq_core.Machine.{Machine, fire}

pub data InvocationStatus : Type 0 where
  initializing starting running waiting_human waiting_tool : InvocationStatus
  completed failed timed_out cancelled interrupted compensating compensated : InvocationStatus

-- `_INVOCATION_TRANSITIONS`
abbrev pub invocation_transitions : InvocationStatus → InvocationStatus → Bool
invocation_transitions initializing starting = true
invocation_transitions initializing cancelled = true
invocation_transitions initializing failed = true
invocation_transitions starting running = true
invocation_transitions starting failed = true
invocation_transitions starting cancelled = true
invocation_transitions running waiting_human = true
invocation_transitions running waiting_tool = true
invocation_transitions running completed = true
invocation_transitions running failed = true
invocation_transitions running timed_out = true
invocation_transitions running cancelled = true
invocation_transitions running interrupted = true
invocation_transitions waiting_human running = true
invocation_transitions waiting_human failed = true
invocation_transitions waiting_human cancelled = true
invocation_transitions waiting_human interrupted = true
invocation_transitions waiting_tool running = true
invocation_transitions waiting_tool failed = true
invocation_transitions waiting_tool cancelled = true
invocation_transitions waiting_tool interrupted = true
invocation_transitions failed compensating = true
invocation_transitions timed_out compensating = true
invocation_transitions interrupted compensating = true
invocation_transitions compensating compensated = true
invocation_transitions compensating failed = true
invocation_transitions _ _ = false

-- `_INVOCATION_TERMINAL`
abbrev pub invocation_terminal : InvocationStatus → Bool
invocation_terminal completed = true
invocation_terminal cancelled = true
invocation_terminal compensated = true
invocation_terminal _ = false

abbrev pub invocation_machine : Machine InvocationStatus
invocation_machine = record { is_terminal = invocation_terminal; allowed = invocation_transitions }

-- `func`; a missing key is `none`.
pub record RawFunction : Type 0 where
  pub name : Option String
  pub arguments : Option String

-- One of the `tool_calls` of a model; the function is `none` if it is missing or no dict.
pub data RawCall : Type 0 where
  no_dict : RawCall
  call : (id : Option String) (function : Option RawFunction) → RawCall

pub data Message : Type 0 where
  user : (content : String) → Message
  assistant : (content : Option String) (tool_calls : List RawCall) → Message
  tool : (tool_call_id : String) (content : String) → Message

-- `build_invocation_summary`, less the latencies
pub record Summary : Type 0 where
  pub total_turns : ℕ
  pub total_tools_called : ℕ
  pub total_tool_failures : ℕ

-- `error_detail`
pub data ErrorInfo : Type 0 where
  gateway_error : (error_code error_message : String) → ErrorInfo
  budget_exhausted : (elapsed_ms budget_ms turns_completed : ℕ) (summary : Summary) → ErrorInfo
  malformed_tool_calls : (raw_tool_calls : List RawCall) → ErrorInfo
  all_tools_failed : (turn count : ℕ) (summary : Summary) → ErrorInfo
  startup_error : ErrorInfo

-- `pending_tool_context`
pub record Pending : Type 0 where
  pub tool_calls : List RawCall
  pub messages : List Message
  pub output_text : Option String
  pub prompt_tokens : ℕ
  pub completion_tokens : ℕ
  pub sandbox_id : Option String
  pub gated_tool_name : String
  pub gated_tool_input_preview : String
  pub gate_reason : String

pub record AgentInvocation : Type 0 where
  pub id : ℕ
  pub step_id : ℕ
  pub run_id : ℕ
  pub task_id : ℕ
  pub workspace_id : ℕ
  pub correlation_id : ℕ
  pub agent_id : String
  pub model_id : String
  pub invocation_status : InvocationStatus
  pub prompt_tokens : Option ℕ
  pub completion_tokens : Option ℕ
  pub total_cost_usd : Option String
  pub input_messages : Option (List Message)
  pub output_messages : Option (List Message)
  pub tool_calls : Option (List RawCall)
  pub error_detail : Option ErrorInfo
  pub pending_tool_context : Option Pending
  pub started_at : Option ℕ
  pub completed_at : Option ℕ
  pub created_at : ℕ

-- `AgentInvocation(…)` of a new invocation
unfoldable pub new :
    (id step_id run_id task_id workspace_id correlation_id : ℕ)
    → (agent_id model_id : String) (now : ℕ) → Result AgentInvocation
new id step_id run_id task_id workspace_id correlation_id agent_id model_id now = do
  raise_if (is_blank agent_id) domain_validation
  raise_if (is_blank model_id) domain_validation
  ok record {
    id = id;
    step_id = step_id;
    run_id = run_id;
    task_id = task_id;
    workspace_id = workspace_id;
    correlation_id = correlation_id;
    agent_id = agent_id;
    model_id = model_id;
    invocation_status = initializing;
    prompt_tokens = none;
    completion_tokens = none;
    total_cost_usd = none;
    input_messages = none;
    output_messages = none;
    tool_calls = none;
    error_detail = none;
    pending_tool_context = none;
    started_at = none;
    completed_at = none;
    created_at = now;
  }

-- `AgentInvocation._transition`
unfoldable pub transition :
    InvocationStatus → AgentInvocation → Result (InvocationStatus × AgentInvocation)
unfolding fire
transition target v = do
  status ← fire invocation_machine v.invocation_status target
  ok (v.invocation_status, record v { invocation_status = status })

unfoldable pub mark_starting : AgentInvocation → Result (InvocationStatus × AgentInvocation)
unfolding transition
mark_starting = transition starting

unfoldable pub mark_running :
    Option (List Message)
    → (now : ℕ) → AgentInvocation
    → Result (InvocationStatus × AgentInvocation)
unfolding transition
mark_running input_messages now v = do
  (prev, v') ← transition running v
  ok (
    prev,
    record v' {
      started_at = some (or_else v.started_at now);
      input_messages = overwrite input_messages v.input_messages;
    },
  )

unfoldable pub mark_waiting_human :
    Option Pending → AgentInvocation → Result (InvocationStatus × AgentInvocation)
unfolding transition
mark_waiting_human pending v = do
  (prev, v') ← transition waiting_human v
  ok (prev, record v' { pending_tool_context = overwrite pending v.pending_tool_context })

unfoldable pub mark_waiting_tool : AgentInvocation → Result (InvocationStatus × AgentInvocation)
unfolding transition
mark_waiting_tool = transition waiting_tool

-- The arguments of `mark_completed`.
pub record Completion : Type 0 where
  pub output_messages : Option (List Message)
  pub tool_calls : Option (List RawCall)
  pub prompt_tokens : Option ℕ
  pub completion_tokens : Option ℕ
  pub total_cost_usd : Option String

unfoldable pub mark_completed :
    Completion → (now : ℕ) → AgentInvocation → Result (InvocationStatus × AgentInvocation)
unfolding transition
mark_completed c now v = do
  (prev, v') ← transition completed v
  ok (
    prev,
    record v' {
      completed_at = some now;
      output_messages = overwrite c.output_messages v.output_messages;
      tool_calls = overwrite c.tool_calls v.tool_calls;
      prompt_tokens = overwrite c.prompt_tokens v.prompt_tokens;
      completion_tokens = overwrite c.completion_tokens v.completion_tokens;
      total_cost_usd = overwrite c.total_cost_usd v.total_cost_usd;
    },
  )

unfoldable pub mark_failed :
    Option ErrorInfo → (now : ℕ) → AgentInvocation → Result (InvocationStatus × AgentInvocation)
unfolding transition
mark_failed error_detail now v = do
  (prev, v') ← transition failed v
  ok (
    prev,
    record v' {
      completed_at = some (or_else v.completed_at now);
      error_detail = overwrite error_detail v.error_detail;
    },
  )

unfoldable pub mark_timed_out :
    Option ErrorInfo → (now : ℕ) → AgentInvocation → Result (InvocationStatus × AgentInvocation)
unfolding transition
mark_timed_out error_detail now v = do
  (prev, v') ← transition timed_out v
  ok (
    prev,
    record v' { completed_at = some now; error_detail = overwrite error_detail v.error_detail },
  )

unfoldable pub mark_cancelled :
    (now : ℕ) → AgentInvocation → Result (InvocationStatus × AgentInvocation)
unfolding transition
mark_cancelled now v = do
  (prev, v') ← transition cancelled v
  ok (prev, record v' { completed_at = some (or_else v.completed_at now) })

unfoldable pub mark_interrupted :
    (now : ℕ) → AgentInvocation → Result (InvocationStatus × AgentInvocation)
unfolding transition
mark_interrupted now v = do
  (prev, v') ← transition interrupted v
  ok (prev, record v' { completed_at = some (or_else v.completed_at now) })

unfoldable pub mark_compensating : AgentInvocation → Result (InvocationStatus × AgentInvocation)
unfolding transition
mark_compensating = transition compensating

unfoldable pub mark_compensated : AgentInvocation → Result (InvocationStatus × AgentInvocation)
unfolding transition
mark_compensated = transition compensated

abbrev pub is_waiting : InvocationStatus → Bool
is_waiting waiting_human = true
is_waiting waiting_tool = true
is_waiting _ = false

unfoldable pub resume_from_wait : AgentInvocation → Result (InvocationStatus × AgentInvocation)
unfolding transition
resume_from_wait v = do
  raise_if (not (is_waiting v.invocation_status)) invalid_transition
  transition running v

-- `AgentInvocation.is_active`
abbrev pub is_active : InvocationStatus → Bool
is_active initializing = true
is_active starting = true
is_active running = true
is_active waiting_human = true
is_active waiting_tool = true
is_active _ = false
