-- ===== src/Agents/Gate/Executes.antt =====
-- The tools that need an approval in the whole of `execute`.
use keviq_core.Prelude.{
  ℕ, ◌≡◌, String, true, false, not, ◌||◌, Option, none, some, [], ◌∷◌, ◌++◌, All, is_blank,
  Bool-cases, inl, inr,
}
use keviq_core.Transaction.Keeps.{Leaves, leaves, Leaves-bind, Leaves-inv}
use keviq_core.Agents.Invocation
use keviq_core.Agents.Invocation.{AgentInvocation, Message, RawCall}
use keviq_core.Agents.Policy.{gate_mode}
use keviq_core.Agents.Store.{
  Session, Tx, registers_artifact, begins_writing, finalizes_artifact, fails_artifact, EventType,
  ask,
}
use keviq_core.Agents.Tools.{World}
use keviq_core.Agents.Contracts.{ExecutionRequest, exits, gathers, End}
use keviq_core.Agents.Loop.{run_tool_loop}
use keviq_core.Agents.Handler.{
  Started, give_up, or_give_up, fill, after_register, create_artifact_best_effort, startup_fails,
  finish, proceed, execute,
}
use keviq_core.Agents.Gate.{IsUngated, Safe, asked, save-Leaves, save_event-Leaves, move-Leaves}
use keviq_core.Agents.Gate.Turns.{run_turns-Leaves}

module _ (w : World) where
  or_give_up-Leaves :
      (k : Tx (Option ℕ)) (s : Session)
      → Leaves Safe (k s)
      → Safe s
      → Leaves Safe (or_give_up w k s)
  unfolding or_give_up give_up ask
  or_give_up-Leaves k s kept h = elim (Bool-cases (w.artifact_call s.port_calls)) [
    | inl fine ↦ rw (fine, or_give_up) kept
    | inr raised ↦ rw (raised, or_give_up) (leaves _ _ (asked fails_artifact s tt h))
  ]

  after_register-Leaves : (o : Option ℕ) (s : Session) → Safe s → Leaves Safe (after_register w o s)
  unfolding after_register fill ask
  after_register-Leaves none s h = leaves _ _ h
  after_register-Leaves (some id) s h =
      let t = record s { port_calls = s.port_calls ++ begins_writing ∷ [] } in
      let safe = asked begins_writing s tt h in
      or_give_up-Leaves _ t
        (or_give_up-Leaves _ _ (leaves _ _ (asked finalizes_artifact t tt safe))
          (asked finalizes_artifact t tt safe))
        safe

  create_artifact_best_effort-Leaves :
      (text : String) (s : Session) → Safe s → Leaves Safe (create_artifact_best_effort w text s)
  unfolding create_artifact_best_effort ask
  create_artifact_best_effort-Leaves text s h =
      elim (Bool-cases (not w.has_artifact_service || is_blank text)) [
        | inl nothing ↦ rw nothing (leaves _ _ h)
        | inr some_text ↦ rw some_text (after_register-Leaves _ _ (asked registers_artifact s tt h))
      ]

  finish-Leaves : (end : End) (s : Session) → Safe s → Leaves Safe (finish w end s)
  unfolding finish
  finish-Leaves (exits reply, v) s h = leaves _ s h
  finish-Leaves (gathers r, v) s h =
      move-Leaves w _ (Invocation.mark_completed _ _ v) _ h (λ (_, u) t safe.
        Leaves-bind (save-Leaves u _ _ t safe) (λ _ t' safe'.
          Leaves-bind (create_artifact_best_effort-Leaves _ t' safe')
            (λ a t'' safe''. leaves _ t'' safe'')))

  startup_fails-Leaves :
      (v : AgentInvocation) (s : Session) → Safe s → Leaves Safe (startup_fails w v s)
  unfolding startup_fails
  startup_fails-Leaves v s h = move-Leaves w _ (Invocation.mark_failed _ _ v) _ h (λ (_, u) t safe.
      Leaves-bind (save_event-Leaves u _ t safe) (λ _ t' safe'. leaves _ t' safe'))

  proceed-Leaves :
      (q : ExecutionRequest) (start : Started) (s : Session)
      → w.approval_mode ≡ gate_mode
      → Safe s
      → Leaves Safe (proceed w q start s)
  unfolding proceed run_tool_loop
  proceed-Leaves q (false, v) s mode h = startup_fails-Leaves v s h
  proceed-Leaves q (true, v) s mode h =
      Leaves-bind (save_event-Leaves v EventType.started s h) (λ _ t safe.
        Leaves-bind (run_turns-Leaves w q mode w.max_tool_turns _ _ 0 _ _ v _ safe)
          (λ end t' safe'. finish-Leaves end t' safe'))

  -- With the approval mode `gate`, execute never has shell.exec or python.run_script run in a sandbox,
  -- whatever the model asks for and whether it returns or raises.
  pub execute-Safe :
      (q : ExecutionRequest) (s : Session)
      → w.approval_mode ≡ gate_mode
      → All IsUngated s.port_calls
      → All IsUngated (execute w q s).1.port_calls
  unfolding execute
  execute-Safe q s mode h = Leaves-inv (
      move-Leaves w _ (Invocation.new _ _ _ _ _ _ _ _ _) _ h
        (λ v t safe. proceed-Leaves q _ _ mode safe))
