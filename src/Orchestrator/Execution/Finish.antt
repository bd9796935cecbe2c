-- ===== src/Orchestrator/Execution/Finish.antt =====
-- How `_finalize_execution` maps a result to the end of the task, of its run and of its step.
use keviq_core.Prelude.{
  ℕ, ◌≡◌, refl, ◌∙◌, inl, inr, false, Option, none, some, ltb, if◌then◌else◌, Bool-cases,
}
use keviq_core.Prelude.Tables
use keviq_core.Orchestrator.Task
use keviq_core.Orchestrator.Task.{Task, TaskStatus}
use keviq_core.Orchestrator.Task.Brief.{IsSound}
use keviq_core.Orchestrator.Run
use keviq_core.Orchestrator.Run.{Run, RunStatus}
use keviq_core.Orchestrator.Step
use keviq_core.Orchestrator.Step.{Step, StepStatus}
use keviq_core.Orchestrator.Events.{OutboxEvent}
use keviq_core.Orchestrator.Session.{Session, Db, commit}
use keviq_core.Orchestrator.Repositories.{
  task_at, run_at, step_at, get_task-found, get_run-found, get_step-found, IsMeasurable,
}
use keviq_core.Orchestrator.Moves.{
  Returns, returned, Returns-bind, Returns-close, OnlyTask, OnlyRun, OnlyStep, move_task-Returns,
  move_run-once-Returns, move_run-twice-Returns, move_step-Returns, OnlyTask-found, OnlyRun-found,
  OnlyStep-found,
}
use keviq_core.Orchestrator.Execution.{
  RuntimeResult, is_success, is_timeout, handle_result, handle_success, handle_failure,
  handle_timeout, finalize_execution,
}

-- How a result ends each of the three.
abbrev pub task_end : RuntimeResult → TaskStatus
task_end r = if is_success r then TaskStatus.completed else TaskStatus.failed

abbrev pub run_end : RuntimeResult → RunStatus
run_end r =
    if is_success r
    then RunStatus.completed
    else if is_timeout r
    then RunStatus.timed_out
    else RunStatus.failed

abbrev pub step_end : RuntimeResult → StepStatus
step_end r = if is_success r then StepStatus.completed else StepStatus.failed

abbrev pub TaskHas : Option Task → TaskStatus → Type 0
TaskHas none _ = ⊥
TaskHas (some t) status = t.task_status ≡ status

-- A run of this task, in this status; and a step of this run.
abbrev pub RunHas : Option Run → (task_id : ℕ) → RunStatus → Type 0
RunHas none _ _ = ⊥
RunHas (some r) task_id status = (r.task_id ≡ task_id) × (r.run_status ≡ status)

abbrev pub StepHas : Option Step → (run_id : ℕ) → StepStatus → Type 0
StepHas none _ _ = ⊥
StepHas (some q) run_id status = (q.run_id ≡ run_id) × (q.step_status ≡ status)

-- The three are running in the database.
pub record AreRunning (d : Db) (task_id run_id step_id : ℕ) (t : Task) (r : Run) (q : Step)
    : Type 0 where
  pub at_task : task_at d task_id ≡ some t
  pub at_run : run_at d run_id ≡ some r
  pub at_step : step_at d step_id ≡ some q
  pub sound : IsSound t
  pub numbered : ltb q.sequence 1 ≡ false
  pub task_running : t.task_status ≡ TaskStatus.running
  pub run_running : r.run_status ≡ RunStatus.running
  pub step_running : q.step_status ≡ StepStatus.running

module _ (t : Task) (r : Run) (q : Step) (s : Session) where
  -- The three rows are saved under their keys, and nothing is committed or asked yet.
  abbrev Ends : TaskStatus → RunStatus → StepStatus → Unit {0} → Session → Type 0
  Ends ts rs qs _ s' =
      TaskHas (task_at s'.db t.id) ts
      × RunHas (run_at s'.db r.id) r.task_id rs
      × StepHas (step_at s'.db q.id) q.run_id qs
      × (s'.committed ≡ s.committed)
      × (s'.port_calls ≡ s.port_calls)

  -- A step, then a run, then the task.
  Ends-saved :
      {ts : TaskStatus} {rs : RunStatus} {qs : StepStatus} {t' : Task} {r' : Run} {q' : Step}
      {s₁ s₂ s₃ s₄ : Session}
      → (q'.id ≡ q.id) × (q'.run_id ≡ q.run_id) × (q'.step_status ≡ qs)
      → OnlyStep q' s s₁
      → (s₂.db.steps ≡ s₁.db.steps)
        × (s₂.committed ≡ s₁.committed)
        × (s₂.port_calls ≡ s₁.port_calls)
      → (r'.id ≡ r.id) × (r'.task_id ≡ r.task_id) × (r'.run_status ≡ rs)
      → OnlyRun r' s₂ s₃
      → (t'.id ≡ t.id) × (t'.task_status ≡ ts)
      → OnlyTask t' s₃ s₄
      → Ends ts rs qs tt s₄
  Ends-saved dq oq m dr or dt ot = (
    rw (OnlyTask-found t.id ot dt.0) dt.1,
    rw (ot.runs, OnlyRun-found r.id or dr.0) (dr.1, dr.2),
    rw (ot.steps, or.steps, m.0, OnlyStep-found q.id oq dq.0) (dq.1, dq.2),
    ot.committed ∙ or.committed ∙ m.1 ∙ oq.committed,
    ot.port_calls ∙ or.port_calls ∙ m.2 ∙ oq.port_calls,
  )

module _ (t : Task) (r : Run) (q : Step) (result : RuntimeResult) (corr : ℕ) (e : OutboxEvent)
    (s : Session) (m : IsMeasurable s r) (tr : t.task_status ≡ TaskStatus.running)
    (rr : r.run_status ≡ RunStatus.running) (qr : q.step_status ≡ StepStatus.running) where
  handle_success-Ends :
      Returns
        (Ends t r q s TaskStatus.completed RunStatus.completed StepStatus.completed)
        (handle_success t r q result corr e s)
  unfolding handle_success
  handle_success-Ends =
      Returns-bind
        (move_step-Returns s _ _
          (λ q'. (q'.id ≡ q.id) × (q'.run_id ≡ q.run_id) × (q'.step_status ≡ StepStatus.completed))
          _ _ (λ t₁ t₂. Step.Moves.complete-running q t₁ t₂ _ qr) (λ _ _. (refl, refl, refl)))
        λ (q', _) s₁ (dq, oq).
          Returns-bind
            (move_run-once-Returns s₁ _ _
              (λ r'.
                (r'.id ≡ r.id)
                × (r'.task_id ≡ r.task_id)
                × (r'.run_status ≡ RunStatus.completing)
                × (r'.started_at ≡ r.started_at))
              _ _ (λ t₁. Run.Moves.begin_completing-running r t₁ 0 rr)
              (λ _. (refl, refl, refl, refl)) (λ _. m.measured))
            λ (r₁, _) s₂ (d₁, o₁).
              Returns-bind
                (move_run-twice-Returns s₂ _ _
                  (λ r'.
                    (r'.id ≡ r₁.id)
                    × (r'.task_id ≡ r₁.task_id)
                    × (r'.run_status ≡ RunStatus.completed))
                  _ _ (λ t₁ t₂. Run.Moves.complete-completing r₁ t₁ t₂ d₁.2) (refl, refl, refl)
                  (rw (d₁.3, o₁.clock, oq.clock) (m.at _)))
                λ (r₂, _) s₃ (d₂, o₂).
                  Returns-bind
                    (move_task-Returns s₃ _ _
                      (λ t'. (t'.id ≡ t.id) × (t'.task_status ≡ TaskStatus.completed)) _ _
                      (λ t₁. Task.Moves.complete-running t t₁ tr) (λ _. (refl, refl)))
                    λ (t', _) s₄ (dt, ot). returned tt s₄ (
                      Ends-saved t r q s dq oq (o₁.steps, o₁.committed, o₁.port_calls)
                        (d₂.0 ∙ d₁.0, d₂.1 ∙ d₁.1, d₂.2) o₂ dt ot)

  -- A failed step, a run that fails or times out, and a failed task.
  handle_failure-Ends :
      Returns
        (Ends t r q s TaskStatus.failed RunStatus.failed StepStatus.failed)
        (handle_failure t r q result corr e s)
  unfolding handle_failure
  handle_failure-Ends =
      Returns-bind
        (move_step-Returns s _ _
          (λ q'. (q'.id ≡ q.id) × (q'.run_id ≡ q.run_id) × (q'.step_status ≡ StepStatus.failed)) _ _
          (λ t₁ t₂. Step.Moves.fail-running q t₁ t₂ _ qr) (λ _ _. (refl, refl, refl)))
        λ (q', _) s₁ (dq, oq).
          Returns-bind
            (move_run-twice-Returns s₁ _ _
              (λ r'. (r'.id ≡ r.id) × (r'.task_id ≡ r.task_id) × (r'.run_status ≡ RunStatus.failed))
              _ _ (λ t₁ t₂. Run.Moves.fail-running r t₁ t₂ _ rr) (refl, refl, refl)
              (rw oq.clock (m.at _)))
            λ (r', _) s₂ (dr, or).
              Returns-bind
                (move_task-Returns s₂ _ _
                  (λ t'. (t'.id ≡ t.id) × (t'.task_status ≡ TaskStatus.failed)) _ _
                  (λ t₁. Task.Moves.fail-running t t₁ tr) (λ _. (refl, refl)))
                λ (t', _) s₃ (dt, ot).
                  returned tt s₃ (Ends-saved t r q s dq oq (refl, refl, refl) dr or dt ot)

  handle_timeout-Ends :
      Returns
        (Ends t r q s TaskStatus.failed RunStatus.timed_out StepStatus.failed)
        (handle_timeout t r q result corr e s)
  unfolding handle_timeout
  handle_timeout-Ends =
      Returns-bind
        (move_step-Returns s _ _
          (λ q'. (q'.id ≡ q.id) × (q'.run_id ≡ q.run_id) × (q'.step_status ≡ StepStatus.failed)) _ _
          (λ t₁ t₂. Step.Moves.fail-running q t₁ t₂ _ qr) (λ _ _. (refl, refl, refl)))
        λ (q', _) s₁ (dq, oq).
          Returns-bind
            (move_run-twice-Returns s₁ _ _
              (λ r'.
                (r'.id ≡ r.id) × (r'.task_id ≡ r.task_id) × (r'.run_status ≡ RunStatus.timed_out))
              _ _ (λ t₁ t₂. Run.Moves.time_out-running r t₁ t₂ rr) (refl, refl, refl)
              (rw oq.clock (m.at _)))
            λ (r', _) s₂ (dr, or).
              Returns-bind
                (move_task-Returns s₂ _ _
                  (λ t'. (t'.id ≡ t.id) × (t'.task_status ≡ TaskStatus.failed)) _ _
                  (λ t₁. Task.Moves.fail-running t t₁ tr) (λ _. (refl, refl)))
                λ (t', _) s₃ (dt, ot).
                  returned tt s₃ (Ends-saved t r q s dq oq (refl, refl, refl) dr or dt ot)

  handle_result-Ends :
      Returns
        (Ends t r q s (task_end result) (run_end result) (step_end result))
        (handle_result t r q result corr e s)
  unfolding handle_result
  handle_result-Ends = elim (Bool-cases (is_success result)) [
    | inl p ↦ rw p handle_success-Ends
    | inr p ↦ elim (Bool-cases (is_timeout result)) [
      | inl p' ↦ rw (p, p') handle_timeout-Ends
      | inr p' ↦ rw (p, p') handle_failure-Ends
    ]
  ]

-- What `_finalize_execution` leaves in the database.
abbrev pub Finished :
    (task_id run_id step_id : ℕ)
    → Run
    → Step
    → RuntimeResult
    → Session
    → Unit {0}
    → Session
    → Type 0
Finished task_id run_id step_id r q result s _ s' =
    TaskHas (task_at s'.committed task_id) (task_end result)
    × RunHas (run_at s'.committed run_id) r.task_id (run_end result)
    × StepHas (step_at s'.committed step_id) q.run_id (step_end result)
    × (s'.port_calls ≡ s.port_calls)

module _ (task_id run_id step_id : ℕ) (t : Task) (r : Run) (q : Step) (result : RuntimeResult)
    (corr : ℕ) (e : OutboxEvent) (s : Session) where
  -- If the task, its run and its step are running in the database when the result arrives, as rows
  -- that their constructors accept, and if the duration that the run has, and what it would have at any
  -- reading of the clock, fit 32 bits, then finalizing returns, and the three are committed as
  -- completed on success; with the task and the step failed and the run timed_out on a timeout; and
  -- all three failed on any other result. The run is still of its task, and the step of its run.
  pub finalize-ends :
      AreRunning s.committed task_id run_id step_id t r q
      → IsMeasurable s r
      → Returns
          (Finished task_id run_id step_id r q result s)
          (finalize_execution task_id run_id step_id result corr e s)
  unfolding finalize_execution commit Run.reload
  finalize-ends a m =
      let s' : Session = record s { db = s.committed } in
      let named_t = Tables.key-find (λ (x : Task). x.id) task_id s.committed.tasks t a.at_task in
      let named_r = Tables.key-find (λ (x : Run). x.id) run_id s.committed.runs r a.at_run in
      let named_q = Tables.key-find (λ (x : Step). x.id) step_id s.committed.steps q a.at_step in
      rw (get_task-found s' task_id t a.at_task a.sound) (
        rw (get_run-found s' run_id r a.at_run) (
          rw (get_step-found s' step_id q a.at_step a.numbered) (
            Returns-close {P = Finished task_id run_id step_id r q result s}
              (Returns-bind
                (handle_result-Ends t (Run.reload r) q result corr e s'
                  (record { measured = m.measured; at = m.at }) a.task_running a.run_running
                  a.step_running)
                λ _ s₁ ends.
                  returned tt _
                    (rw named_t at ends.0, rw named_r at ends.1, rw named_q at ends.2, ends.4))
              λ _ s₁ ends. ends)))
