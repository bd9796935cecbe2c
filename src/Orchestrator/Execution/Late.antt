-- ===== src/Orchestrator/Execution/Late.antt =====
-- A result that arrives after the step has ended.
use keviq_core.Prelude.{ℕ, ◌≡◌, refl, inl, inr, true, false, Option, some, ltb, arith, Bool-cases}
use keviq_core.Errors.{Error, Result, ok, err, terminal_state}
use keviq_core.Orchestrator.Task.{Task, Dict}
use keviq_core.Orchestrator.Task.Brief.{IsSound}
use keviq_core.Orchestrator.Run
use keviq_core.Orchestrator.Run.{Run}
use keviq_core.Orchestrator.Step
use keviq_core.Orchestrator.Step.{Step, StepStatus, step_terminal}
use keviq_core.Orchestrator.Events.{OutboxEvent}
use keviq_core.Orchestrator.Session.{Session, Tx, commit, continue}
use keviq_core.Orchestrator.Repositories.{
  task_at, run_at, step_at, get_task-found, get_run-found, get_step-found,
}
use keviq_core.Orchestrator.Moves.{move_step, twice}
use keviq_core.Orchestrator.Execution.{
  RuntimeResult, is_success, is_timeout, handle_result, handle_success, handle_failure,
  handle_timeout, finalize_execution,
}

-- What comes after code that raised is not run.
continue-err :
    {A B : Type 0} (out : Result A × Session) (f : A → Tx B) {x : Error}
    → out.0 ≡ err x
    → continue out f ≡ (err x, out.1)
continue-err (ok a, s) f h = cc
continue-err (err y, s) f h = ground arith

module _ (q : Step) (t u : ℕ) (over : step_terminal q.step_status ≡ true) where
  complete-over : (output : Dict) → Step.complete output t u q ≡ err terminal_state
  unfolding Step.complete
  complete-over output = ground arith

  fail-over : (detail : Option Dict) → Step.fail detail t u q ≡ err terminal_state
  unfolding Step.fail
  fail-over detail = ground arith

module _ (t : Task) (r : Run) (q : Step) (result : RuntimeResult) (corr : ℕ) (e : OutboxEvent)
    (s : Session) (over : step_terminal q.step_status ≡ true) where
  handle_result-over :
      ((handle_result t r q result corr e s).0 ≡ err terminal_state)
      × ((handle_result t r q result corr e s).1.committed ≡ s.committed)
  unfolding handle_result handle_success handle_failure handle_timeout move_step twice
  handle_result-over = elim (Bool-cases (is_success result)) [
    | inl p ↦ rw (p, complete-over q _ _ over) (refl, refl)
    | inr p ↦ elim (Bool-cases (is_timeout result)) [
      | inl p' ↦ rw (p, p', fail-over q _ _ over) (refl, refl)
      | inr p' ↦ rw (p, p', fail-over q _ _ over) (refl, refl)
    ]
  ]

module _ (task_id run_id step_id : ℕ) (t : Task) (r : Run) (q : Step) (result : RuntimeResult)
    (corr : ℕ) (e : OutboxEvent) (s : Session) (found : task_at s.committed task_id ≡ some t)
    (run_found : run_at s.committed run_id ≡ some r)
    (step_found : step_at s.committed step_id ≡ some q) (sound : IsSound t)
    (numbered : ltb q.sequence 1 ≡ false) where
  -- A result that arrives after the step has been completed, failed, skipped or cancelled is lost: if
  -- the three rows are stored and their constructors accept them, then, whatever the result says, finalizing raises a TerminalStateError and leaves every table and the outbox as
  -- they were, the task and the run included.
  pub finalize-over :
      step_terminal q.step_status ≡ true
      → ((finalize_execution task_id run_id step_id result corr e s).0 ≡ err terminal_state)
        × ((finalize_execution task_id run_id step_id result corr e s).1.committed ≡ s.committed)
  unfolding finalize_execution
  finalize-over over =
      let s' : Session = record s { db = s.committed } in
      let (raises, kept) = handle_result-over t (Run.reload r) q result corr e s' over in
      rw (get_task-found s' task_id t found sound) (
        rw (get_run-found s' run_id r run_found) (
          rw (get_step-found s' step_id q step_found numbered) (
            rw
              (continue-err (handle_result t (Run.reload r) q result corr e s') (λ _. commit)
                raises)
              (refl, kept))))
