-- ===== src/Sandboxes/Execution/Ends.antt =====
-- How `execute_tool` ends, whatever the backend does and whatever others do while the command runs.
use keviq_core.Prelude.{
  ℕ, ◌+◌, ◌≡◌, ◌⊎◌, refl, ap, String, List, [], ◌∷◌, ◌++◌, inl, inr, ℤ, Bool-cases,
}
use keviq_core.Errors.{ok, Result-cases}
use keviq_core.Transaction.Outcomes.{Outcome, raised, Outcome-bind, Outcome-map}
use keviq_core.Sandboxes.Sandbox.{Sandbox}
use keviq_core.Sandboxes.Contracts.{ToolExecutionResult}
use keviq_core.Sandboxes.Store.{Session, AttemptData, executes, ask}
use keviq_core.Sandboxes.Tools.{ToolDefinition, get_tool, build_command}
use keviq_core.Sandboxes.Execution.{
  Request, Reply, timeout_seconds, not_positive, after_command, execute_tool,
}
use keviq_core.Sandboxes.Execution.Claims.{Claimed, Refused, Claimed-same, claim-Outcome}
use keviq_core.Sandboxes.Execution.Settles.{Settled, Reported, after_command-Outcome}

module _ (show_integer : ℤ → String) (timeout_message : ℕ → String)
    (exec_in_sandbox : ℕ → List String → ℕ → Session → Reply × Session) where
  -- The command ran once, for a registered tool and in the sandbox that `s` had free, once the claim was
  -- committed; `t` is what the database and the clock were then.
  pub record Run (q : Request) (s : Session) (t : Session) : Type 0 where
    pub tool : ToolDefinition
    pub command : List String
    pub is_tool : get_tool q.tool_name ≡ ok tool
    pub is_command : build_command q.tool_name q.tool_input ≡ ok command
    pub claimant : Sandbox
    pub at_claim : Session
    pub is_claimed :
        Claimed q tool (s.uuids (s.draws + 1)) (s.clock s.reads) s.committed claimant at_claim
    pub asked :
        at_claim.port_calls
        ≡ s.port_calls ++ executes q.sandbox_id command (timeout_seconds q.timeout_ms) ∷ []
    pub ran : t ≡ (exec_in_sandbox q.sandbox_id command (timeout_seconds q.timeout_ms) at_claim).1

  abbrev pub Ended : Request → Session → ToolExecutionResult → Session → Type 0
  Ended q s a s' =
      (t : Session) × (d : AttemptData) × Run q s t
      × Reported q (s.uuids (s.draws + 1)) d a
      × Settled q d t.committed s'

  -- Nothing was committed, or the command ran and nothing more was committed after it.
  abbrev pub Raised : Request → Session → Session → Type 0
  Raised q s s' = Refused s s' ⊎ ((t : Session) × Run q s t × (s'.committed ≡ t.committed))

  -- The code from the claim on.
  run-Outcome :
      (q : Request) (s : Session) (tool : ToolDefinition) (command : List String)
      → get_tool q.tool_name ≡ ok tool
      → build_command q.tool_name q.tool_input ≡ ok command
      → (correlation_id : ℕ) (b : Sandbox) (u : Session)
      → Claimed q tool (s.uuids (s.draws + 1)) (s.clock s.reads) s.committed b u
      → u.port_calls ≡ s.port_calls
      → let timeout_s = timeout_seconds q.timeout_ms in
        let v = record u {
          port_calls = u.port_calls ++ executes q.sandbox_id command timeout_s ∷ [];
        } in
        let (reply, t) = exec_in_sandbox q.sandbox_id command timeout_s v in
        Outcome (Ended q s) (Raised q s) (
          after_command show_integer timeout_message
            (s.uuids (s.draws + 1))
            q
            b.workspace_id
            correlation_id
            reply
            t)
  run-Outcome q s tool command is_tool is_command correlation_id b u is_claimed calls =
      let timeout_s = timeout_seconds q.timeout_ms in
      let v = record u {
        port_calls = u.port_calls ++ executes q.sandbox_id command timeout_s ∷ [];
      } in
      let r = exec_in_sandbox q.sandbox_id command timeout_s v in
      let run : Run q s r.1 = record {
        tool = tool;
        command = command;
        is_tool = is_tool;
        is_command = is_command;
        claimant = b;
        at_claim = v;
        is_claimed = Claimed-same q tool _ _ s.committed b u v refl is_claimed;
        asked = ap (λ calls. calls ++ executes q.sandbox_id command timeout_s ∷ []) calls;
        ran = refl;
      } in
      Outcome-map
        (after_command-Outcome show_integer timeout_message q (s.uuids (s.draws + 1)) b.workspace_id
          correlation_id r.0 r.1)
        (λ a s' (d, reported, settled). (r.1, d, run, reported, settled))
        (λ s' same. inr (r.1, run, same))

  -- Whatever the backend does and whatever others commit meanwhile. A call that raises has committed nothing
  -- and asked no backend, or it had claimed a sandbox that was free, ran the command once and committed
  -- nothing after it. A call that returns has claimed such a sandbox, run the command once, and then
  -- committed one transaction, in which the sandbox, if it is still stored, is released and the attempt is
  -- saved with the status that it returns.
  pub execute_tool-Outcome :
      (q : Request) (s : Session)
      → Outcome
          (Ended q s)
          (Raised q s)
          (execute_tool show_integer timeout_message exec_in_sandbox q s)
  unfolding execute_tool ask
  execute_tool-Outcome q s =
      let same : Refused s (record s { draws = s.draws + 1 + 1; reads = s.reads + 1 }) = record {
        committed = refl;
        port_calls = refl;
      } in
      elim (Result-cases (get_tool q.tool_name)) [
        | inr (e, unknown) ↦ rw unknown (raised _ _ (inl same))
        | inl (tool, is_tool) ↦ elim (Result-cases (build_command q.tool_name q.tool_input)) [
          | inr (e, bad) ↦ rw (is_tool, bad) (raised _ _ (inl same))
          | inl (command, is_command) ↦ elim (Bool-cases (not_positive q.timeout_ms)) [
            | inl zero ↦ rw (is_tool, is_command, zero) (raised _ _ (inl same))
            | inr positive ↦
                rw (is_tool, is_command, positive)
                  (Outcome-bind
                    (Outcome-map
                      (claim-Outcome q tool (s.uuids (s.draws + 1)) (s.uuids s.draws)
                        (s.clock s.reads)
                        (record s { draws = s.draws + 1 + 1; reads = s.reads + 1 }))
                      (λ b u h. h)
                      (λ u r. inl (record { committed = r.committed; port_calls = r.port_calls })))
                    (λ b u (is_claimed, calls).
                      run-Outcome q s tool command is_tool is_command (s.uuids s.draws) b u
                        is_claimed calls))
          ]
        ]
      ]
