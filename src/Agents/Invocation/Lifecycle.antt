-- ===== src/Agents/Invocation/Lifecycle.antt =====
-- What the moves of an invocation do to its status.
use keviq_core.Prelude.{ℕ, ◌≡◌, refl, Option, some, or_else, overwrite, List, true, arith}
use keviq_core.Errors.{Result, ok}
use keviq_core.Agents.Invocation.{
  AgentInvocation, InvocationStatus, initializing, starting, running, waiting_human, waiting_tool,
  completed, failed, timed_out, ErrorInfo, Message, Pending, Completion, invocation_transitions,
  mark_starting, mark_running, mark_waiting_human, mark_waiting_tool, mark_completed, mark_failed,
  mark_timed_out, resume_from_wait,
}

-- The move was accepted; the invocation is itself, in the new status.
pub record Moved (v : AgentInvocation) (target : InvocationStatus)
    (out : Result (InvocationStatus × AgentInvocation)) : Type 0 where
  pub after : AgentInvocation
  pub accepted : out ≡ ok (v.invocation_status, after)
  pub status : after.invocation_status ≡ target
  pub id : after.id ≡ v.id

module _ (v : AgentInvocation) where
  pub mark_starting-Moved : v.invocation_status ≡ initializing → Moved v starting (mark_starting v)
  unfolding mark_starting
  mark_starting-Moved h = record {
    after = record v { invocation_status = starting };
    accepted = ground (arith, h);
    status = refl;
    id = refl;
  }

  pub mark_running-Moved :
      (messages : Option (List Message)) (now : ℕ)
      → v.invocation_status ≡ starting
      → Moved v running (mark_running messages now v)
  unfolding mark_running
  mark_running-Moved messages now h = record {
    after = record v {
      invocation_status = running;
      started_at = some (or_else v.started_at now);
      input_messages = overwrite messages v.input_messages;
    };
    accepted = ground (arith, h);
    status = refl;
    id = refl;
  }

  pub mark_waiting_tool-Moved :
      v.invocation_status ≡ running → Moved v waiting_tool (mark_waiting_tool v)
  unfolding mark_waiting_tool
  mark_waiting_tool-Moved h = record {
    after = record v { invocation_status = waiting_tool };
    accepted = ground (arith, h);
    status = refl;
    id = refl;
  }

  pub mark_completed-Moved :
      (c : Completion) (now : ℕ)
      → v.invocation_status ≡ running
      → Moved v completed (mark_completed c now v)
  unfolding mark_completed
  mark_completed-Moved c now h = record {
    after = record v {
      invocation_status = completed;
      completed_at = some now;
      output_messages = overwrite c.output_messages v.output_messages;
      tool_calls = overwrite c.tool_calls v.tool_calls;
      prompt_tokens = overwrite c.prompt_tokens v.prompt_tokens;
      completion_tokens = overwrite c.completion_tokens v.completion_tokens;
      total_cost_usd = overwrite c.total_cost_usd v.total_cost_usd;
    };
    accepted = ground (arith, h);
    status = refl;
    id = refl;
  }

  pub mark_timed_out-Moved :
      (info : Option ErrorInfo) (now : ℕ)
      → v.invocation_status ≡ running
      → Moved v timed_out (mark_timed_out info now v)
  unfolding mark_timed_out
  mark_timed_out-Moved info now h = record {
    after = record v {
      invocation_status = timed_out;
      completed_at = some now;
      error_detail = overwrite info v.error_detail;
    };
    accepted = ground (arith, h);
    status = refl;
    id = refl;
  }

  pub resume_from_wait-Moved :
      v.invocation_status ≡ waiting_tool → Moved v running (resume_from_wait v)
  unfolding resume_from_wait
  resume_from_wait-Moved h = record {
    after = record v { invocation_status = running };
    accepted = ground (arith, h);
    status = refl;
    id = refl;
  }

  -- From running and from waiting for a tool.
  pub mark_failed-Moved :
      (info : Option ErrorInfo) (now : ℕ)
      → invocation_transitions v.invocation_status failed ≡ true
      → Moved v failed (mark_failed info now v)
  unfolding mark_failed
  mark_failed-Moved info now h = record {
    after = record v {
      invocation_status = failed;
      completed_at = some (or_else v.completed_at now);
      error_detail = overwrite info v.error_detail;
    };
    accepted = ground (arith, h);
    status = refl;
    id = refl;
  }

  -- The pending context is on the invocation.
  pub mark_waiting_human-Moved :
      (pending : Pending)
      → v.invocation_status ≡ running
      → (m : Moved v waiting_human (mark_waiting_human (some pending) v))
        × (m.after.pending_tool_context ≡ some pending)
  unfolding mark_waiting_human
  mark_waiting_human-Moved pending h = (
    record {
      after = record v { invocation_status = waiting_human; pending_tool_context = some pending };
      accepted = ground (arith, h);
      status = refl;
      id = refl;
    },
    refl,
  )
