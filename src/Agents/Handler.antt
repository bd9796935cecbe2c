-- ===== src/Agents/Handler.antt =====
-- apps/agent-runtime/src/application: execution_handler.py, and the creation of the artifact in
-- artifact_integration.py.
pub mod Ends
use keviq_core.Prelude.{
  ℕ, String, Bool, true, false, ◌||◌, not, Option, none, some, List, [], ◌∷◌, is_nil, is_blank,
  is_empty, or_else, if◌then◌else◌,
}
use keviq_core.Errors.{Result, ok, err}
use keviq_core.Agents.Invocation
use keviq_core.Agents.Invocation.{
  AgentInvocation, Message, user, assistant, RawCall, startup_error, InvocationStatus, Completion,
}
use keviq_core.Agents.Store.{
  Tx, EventType, summed, build_event_payload, registers_artifact, begins_writing,
  finalizes_artifact, fails_artifact, save_with_event, save_payload, ◌>>=◌, ◌>>◌, now, ask, pure,
  lift,
}
use keviq_core.Agents.Tools.{World, Response}
use keviq_core.Agents.Contracts.{
  ExecutionRequest, ExecutionStatus, Reply, succeeds, fails, output, LoopResult, LoopEnd, exits,
  gathers, End, summary,
}
use keviq_core.Agents.Loop.{run_tool_loop}

-- `[{"role": "user", "content": request.instruction}] if request.instruction else None`
abbrev pub first_messages : String → Option (List Message)
first_messages instruction = if is_empty instruction then none else some (user instruction ∷ [])

-- `last_gw_response.get("output_text", "")`
abbrev pub output_text : Option Response → String
output_text none = ""
output_text (some r) = or_else r.output_text ""

abbrev pub model_of : Option Response → Option String
model_of none = none
model_of (some r) = r.model_concrete

-- Both moves at the start, or the invocation as the refused one has left it.
abbrev pub Started : Type 0
Started = Bool × AgentInvocation

abbrev pub set_running :
    String → (now : ℕ) → Result (InvocationStatus × AgentInvocation) → AgentInvocation → Started
set_running instruction t (err e) v = (false, v)
set_running instruction t (ok (_, v')) v =
    elim (Invocation.mark_running (first_messages instruction) t v') [
      | ok (_, v'') ↦ (true, v'')
      | err e ↦ (false, v')
    ]

abbrev pub or_nothing : List RawCall → Option (List RawCall)
or_nothing calls = if is_nil calls then none else some calls

abbrev pub completion : LoopResult → Completion
completion r = record {
  output_messages = some (assistant (some (output_text r.last_response)) [] ∷ []);
  tool_calls = or_nothing r.all_tool_calls;
  prompt_tokens = some r.total_prompt_tokens;
  completion_tokens = some r.total_completion_tokens;
  total_cost_usd = none;
}

module _ (w : World) where
  -- `except`: the artifact, once it is registered, is marked as failed.
  unfoldable pub give_up : Tx (Option ℕ)
  unfolding ask
  give_up = do ask fails_artifact; pure none

  -- A call of artifact-service that may raise.
  unfoldable pub or_give_up : Tx (Option ℕ) → Tx (Option ℕ)
  unfolding give_up
  or_give_up k s = elim (w.artifact_call s.port_calls) [ true ↦ k s | false ↦ give_up s ]

  unfoldable pub fill : ℕ → Tx (Option ℕ)
  unfolding ask
  fill id = do
    ask begins_writing
    or_give_up (do ask finalizes_artifact; or_give_up (pure (some id)))

  unfoldable pub after_register : Option ℕ → Tx (Option ℕ)
  unfolding fill
  after_register none = pure none
  after_register (some id) = fill id

  unfoldable pub create_artifact_best_effort : String → Tx (Option ℕ)
  unfolding after_register ask
  create_artifact_best_effort text =
      if not w.has_artifact_service || is_blank text
      then pure none
      else (do ask registers_artifact; λ s. after_register (w.register_artifact s.port_calls) s)

  unfoldable pub startup_fails : AgentInvocation → Tx Reply
  startup_fails v = do
    finished ← now
    (_, v') ← lift (Invocation.mark_failed (some startup_error) finished v)
    save_with_event v' EventType.failed
    pure (
        fails record {
          agent_invocation_id = v'.id;
          status = ExecutionStatus.failed;
          error_code = "STARTUP_ERROR";
          retryable = false;
          failed_at = v'.completed_at;
        })

  -- What follows the loop.
  unfoldable pub finish : End → Tx Reply
  finish (exits reply, v) = pure reply
  finish (gathers r, v) = do
    finished ← now
    (_, v') ← lift (Invocation.mark_completed (completion r) finished v)
    save_payload v' EventType.completed
        (summed (build_event_payload v') (summary r.completed_turns r))
    artifact_id ← create_artifact_best_effort (output_text r.last_response)
    pure (
        succeeds record {
          agent_invocation_id = v'.id;
          status = ExecutionStatus.completed;
          output_payload = output (output_text r.last_response);
          prompt_tokens = r.total_prompt_tokens;
          completion_tokens = r.total_completion_tokens;
          model_concrete = model_of r.last_response;
          started_at = v'.started_at;
          completed_at = v'.completed_at;
          artifact_id = artifact_id;
        })

  -- What follows the start.
  unfoldable pub proceed : ExecutionRequest → Started → Tx Reply
  proceed q (false, v) = startup_fails v
  proceed q (true, v) = do
    save_with_event v EventType.started
    end ← run_tool_loop w q v
    finish end

  -- `ExecuteInvocationHandler.execute`
  unfoldable pub execute : ExecutionRequest → Tx Reply
  execute q = do
    created ← now
    v ← lift (
        Invocation.new q.agent_invocation_id q.step_id q.run_id q.task_id q.workspace_id
          q.correlation_id q.agent_id q.model_alias created)
    t ← now
    proceed q (set_running q.instruction t (Invocation.mark_starting v) v)
