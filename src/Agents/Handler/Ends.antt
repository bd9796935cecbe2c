-- ===== src/Agents/Handler/Ends.antt =====
-- How `execute` ends.
use keviq_core.Prelude.{
  ℕ, ◌≡◌, refl, sym, ap, ◌∙◌, String, true, false, ◌||◌, not, Option, none, some, is_blank,
  Bool-cases, inl, inr,
}
use mathlib.Core.Path.{subst}
use keviq_core.Prelude.Tables
use keviq_core.Errors.{ok}
use keviq_core.Transaction.Returns.{Returns, returned, Returns-bind, Returns-weaken}
use keviq_core.Agents.Invocation
use keviq_core.Agents.Invocation.{AgentInvocation, InvocationStatus, initializing, running}
use keviq_core.Agents.Invocation.Lifecycle.{
  mark_starting-Moved, mark_running-Moved, mark_completed-Moved,
}
use keviq_core.Agents.Store.{Session, Tx, EventType, ask}
use keviq_core.Agents.Tools.{World}
use keviq_core.Agents.Contracts.{ExecutionRequest, Reply, exits, gathers, End}
use keviq_core.Agents.Calls.{read_sandbox}
use keviq_core.Agents.Loop.{run_tool_loop}
use keviq_core.Agents.Loop.Replies.{
  Agrees, is_completed, IsSaved, EndOk, IsRunning, Moved-Returns, save_payload-Returns,
  save_with_event-Returns,
}
use keviq_core.Agents.Loop.Ends.{run_turns-Returns}
use keviq_core.Agents.Handler.{
  first_messages, set_running, or_give_up, fill, after_register, create_artifact_best_effort,
  finish, proceed, execute,
}

-- The stored invocation has the status that the reply is for.
pub record IsReplied (id : ℕ) (reply : Reply) (s : Session) : Type 0 where
  pub invocation : AgentInvocation
  pub agrees : Agrees reply invocation
  pub row : AgentInvocation
  pub found : Tables.find (λ r. r.id) id s.committed.invocations ≡ some row
  pub status : row.invocation_status ≡ invocation.invocation_status
  pub pending : row.pending_tool_context ≡ invocation.pending_tool_context

replied :
    (id : ℕ) (reply : Reply) (v : AgentInvocation) (s t : Session)
    → v.id ≡ id
    → Agrees reply v
    → IsSaved v s
    → t.committed ≡ s.committed
    → IsReplied id reply t
replied id reply v s t e agrees saved same = record {
  invocation = v;
  agrees = agrees;
  row = saved.row;
  found =
      ap (λ d. Tables.find (λ r. r.id) id d.invocations) same
      ∙ ap (λ i. Tables.find (λ r. r.id) i s.committed.invocations) (sym e)
      ∙ saved.found;
  status = saved.status;
  pending = saved.pending;
}

module _ (w : World) where
  or_give_up-Returns :
      (k : Tx (Option ℕ)) (s : Session)
      → Returns (λ _ s'. s'.committed ≡ s.committed) (k s)
      → Returns (λ _ s'. s'.committed ≡ s.committed) (or_give_up w k s)
  unfolding or_give_up
  or_give_up-Returns k s h = elim (Bool-cases (w.artifact_call s.port_calls)) [
    | inl fine ↦ rw (fine, or_give_up) h
    | inr raised ↦ rw (raised, or_give_up) (returned _ _ refl)
  ]

  after_register-Returns :
      (o : Option ℕ) (s : Session)
      → Returns (λ _ s'. s'.committed ≡ s.committed) (after_register w o s)
  unfolding after_register fill ask
  after_register-Returns none s = returned _ _ refl
  after_register-Returns (some id) s =
      or_give_up-Returns _ _ (or_give_up-Returns _ _ (returned _ _ refl))

  create_artifact_best_effort-Returns :
      (text : String) (s : Session)
      → Returns (λ _ s'. s'.committed ≡ s.committed) (create_artifact_best_effort w text s)
  unfolding create_artifact_best_effort fill
  create_artifact_best_effort-Returns text s =
      elim (Bool-cases (not w.has_artifact_service || is_blank text)) [
        | inl nothing ↦ rw nothing (returned _ _ refl)
        | inr some_text ↦ rw some_text (after_register-Returns _ _)
      ]

  finish-Returns :
      (id : ℕ) (end : End) (s : Session)
      → EndOk id end s
      → Returns (λ reply s'. IsReplied id reply s') (finish w end s)
  unfolding finish
  finish-Returns id (exits reply, v) s (e, agrees, saved) =
      returned _ _ (replied id reply v s s e agrees saved refl)
  finish-Returns id (gathers r, v) s (e, run) =
      Moved-Returns _ _ (mark_completed-Moved v _ _ run) (λ u status id_u.
        Returns-bind (save_payload-Returns u EventType.completed _ _) (λ _ t saved.
          Returns-bind (create_artifact_best_effort-Returns _ t) (λ artifact t' same.
            returned _ _ (replied id _ u t t' (id_u ∙ e) (is_completed refl status) saved same))))

  set_running-IsRunning :
      (instruction : String) (t : ℕ) (v : AgentInvocation)
      → v.invocation_status ≡ initializing
      → (u : AgentInvocation) × (set_running instruction t (Invocation.mark_starting v) v
          ≡ (true, u))
        × IsRunning u
        × (u.id ≡ v.id)
  set_running-IsRunning instruction t v h =
      let m = mark_starting-Moved v h in
      let n = mark_running-Moved m.after (first_messages instruction) t m.status in
      (
        n.after,
        ap (λ out. set_running instruction t out v) m.accepted ∙ rw (n.accepted, set_running),
        n.status,
        n.id ∙ m.id,
      )

  module _
      (dicts : (t : String)
        → ((w.parse_input t).is_read ≡ true) × ((w.parse_input t).is_dict ≡ true)) where
    proceed-Returns :
        (q : ExecutionRequest) (sandbox_id : Option ℕ) (v : AgentInvocation) (s : Session)
        → read_sandbox w.parse_uuid q.sandbox_id ≡ ok sandbox_id
        → IsRunning v
        → Returns (λ reply s'. IsReplied v.id reply s') (proceed w q (true, v) s)
    unfolding proceed run_tool_loop
    proceed-Returns q sandbox_id v s given run =
        Returns-bind (save_with_event-Returns v EventType.started s) (λ _ t saved.
          Returns-bind
            (run_turns-Returns w dicts q sandbox_id given w.max_tool_turns _ _ 0 _ _ v _ run)
            (λ end t' ok. finish-Returns v.id end t' ok))

    start-Returns :
        (q : ExecutionRequest) (sandbox_id : Option ℕ) (t : ℕ) (v : AgentInvocation) (s : Session)
        → read_sandbox w.parse_uuid q.sandbox_id ≡ ok sandbox_id
        → v.invocation_status ≡ initializing
        → Returns
            (λ reply s'. IsReplied v.id reply s')
            (proceed w q (set_running q.instruction t (Invocation.mark_starting v) v) s)
    start-Returns q sandbox_id t v s given new =
        let (u, started, run, id) = set_running-IsRunning q.instruction t v new in
        rw started (
          Returns-weaken (proceed-Returns q sandbox_id u s given run)
            (λ reply s' h. subst (λ i. IsReplied i reply s') id h))

    -- Where the arguments of a tool are a JSON object if they are JSON, and reading them raises
    -- nothing but what is caught: a request with names for the agent and the model, whose sandbox is a UUID if it has one, is always
    -- answered, whatever the model, the tools and the approval service do; and the stored invocation has the
    -- status that the answer is for: completed, failed, timed out, or waiting for a human with the
    -- pending context. Only a spent budget is answered as a failure where the invocation has timed out.
    pub execute-Returns :
        (q : ExecutionRequest) (sandbox_id : Option ℕ) (s : Session)
        → is_blank q.agent_id ≡ false
        → is_blank q.model_alias ≡ false
        → read_sandbox w.parse_uuid q.sandbox_id ≡ ok sandbox_id
        → Returns (λ reply s'. IsReplied q.agent_invocation_id reply s') (execute w q s)
    unfolding execute Invocation.new
    execute-Returns q sandbox_id s agent model given =
        rw (agent, model) (start-Returns q sandbox_id _ _ _ given refl)
