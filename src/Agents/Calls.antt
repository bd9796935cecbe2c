-- ===== src/Agents/Calls.antt =====
-- apps/agent-runtime/src/application/tool_loop.py: the tools of one turn.
use keviq_core.Prelude.{
  ℕ, suc, ◌-◌, ◌/◌, ◌==◌, String, Bool, true, false, ◌&&◌, Option, none, some, List, [], ◌∷◌,
  is_empty, str_eq, ltb, leb, or_else, if◌then◌else◌,
}
use keviq_core.Errors.{value_error, Result, ok, err}
use keviq_core.Agents.Invocation.{Message, tool, RawCall}
use keviq_core.Agents.Store.{Tx, Detail, ◌>>=◌, now, pure}
use keviq_core.Agents.Tools.{World, ToolResult, tool_name, call_id, is_given, execute_tool}

-- `_dispatch_tools`: what one turn has done.
pub record Turn : Type 0 where
  pub failures : ℕ
  pub details : List Detail
  pub messages : List Message

abbrev pub elapsed : (start t : ℕ) → ℕ
elapsed start t = (t - start) / 1000

-- `tool_result.get("stdout", "") or tool_result.get("error_message", …)`
abbrev pub content_of : ToolResult → String
content_of r =
    if is_given r.stdout
    then or_else r.stdout ""
    else or_else r.error_message "Tool execution failed"

-- `sandbox_id_str` as a UUID; an empty text counts as none.
abbrev pub read_sandbox : (parse_uuid : String → Option ℕ) → Option String → Result (Option ℕ)
read_sandbox parse_uuid none = ok none
read_sandbox parse_uuid (some s) =
    if is_empty s
    then ok none
    else (elim (parse_uuid s) [ none ↦ err value_error | some id ↦ ok (some id) ])

module _ (w : World) where
  abbrev pub is_completed : Option String → Bool
  is_completed none = false
  is_completed (some status) = str_eq status "completed"

  -- One tool that was executed, put before what the rest of the turn has done.
  abbrev pub with_result : RawCall → ToolResult → Turn → Turn
  with_result tc r rest = record {
    failures = if is_completed r.status then rest.failures else suc rest.failures;
    details = record { name = tool_name tc; status = or_else r.status "failed" } ∷ rest.details;
    messages =
        tool (call_id tc) (
          w.truncate_tool_result
            (if r.truncated then w.append_truncated (content_of r) else content_of r))
        ∷ rest.messages;
  }

  abbrev pub with_skip : RawCall → Turn → Turn
  with_skip tc rest = record {
    failures = suc rest.failures;
    details = record { name = tool_name tc; status = "skipped" } ∷ rest.details;
    messages = tool (call_id tc) "Budget exhausted — tool execution skipped" ∷ rest.messages;
  }

  -- One tool, and the rest after it; once the budget is spent it is skipped.
  unfoldable pub dispatch_one :
      (late : Bool) → RawCall → Option ℕ → (attempt_index : ℕ) → (others : Tx Turn) → Tx Turn
  dispatch_one true tc sandbox_id attempt_index others = do done ← others; pure (with_skip tc done)
  dispatch_one false tc sandbox_id attempt_index others = do
    r ← execute_tool w tc sandbox_id attempt_index
    done ← others
    pure (with_result tc r done)

  unfoldable pub dispatch_tools :
      (start budget_ms : ℕ) → Option ℕ → (attempt_index : ℕ) → List RawCall → Tx Turn
  dispatch_tools start budget_ms sandbox_id attempt_index [] =
      pure record { failures = 0; details = []; messages = [] }
  dispatch_tools start budget_ms sandbox_id attempt_index (tc ∷ rest) =
      let others = dispatch_tools start budget_ms sandbox_id attempt_index rest in
      (do
        t ← now
        dispatch_one (leb budget_ms (elapsed start t)) tc sandbox_id attempt_index others)

  -- `turn_res.all_failed`
  abbrev pub all_failed : (count : ℕ) → Turn → Bool
  all_failed count done = (done.failures == count) && ltb 0 count
