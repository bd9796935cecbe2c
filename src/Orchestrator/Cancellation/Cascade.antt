-- ===== src/Orchestrator/Cancellation/Cascade.antt =====
-- Where a cancellation leaves the task, its runs and their steps.
use keviq_core.Prelude.{
  ℕ, ◌+◌, ◌≡◌, refl, sym, ◌∙◌, inl, inr, Bool, true, false, ◌&&◌, none, some, List, [], ◌∷◌, map,
  arith, ◌==◌, Bool-cases, eq→==, All, where_test,
}
use keviq_core.Prelude.Tables
use keviq_core.Errors.{ok}
use keviq_core.Orchestrator.Task
use keviq_core.Orchestrator.Task.{Task, TaskStatus}
use keviq_core.Orchestrator.Task.Brief.{IsSound}
use keviq_core.Orchestrator.Run
use keviq_core.Orchestrator.Run.{Run, RunStatus}
use keviq_core.Orchestrator.Step
use keviq_core.Orchestrator.Step.{Step, StepStatus}
use keviq_core.Orchestrator.Events
use keviq_core.Orchestrator.Events.{OutboxEvent}
use keviq_core.Orchestrator.Session.{Session, Db, with_uow, for_each, write}
use keviq_core.Orchestrator.Repositories.{
  task_at, run_at, step_at, get_task-found, list_active_by_task, save_task,
}
use keviq_core.Orchestrator.Sweeping.{AreNumbered}
use keviq_core.Orchestrator.Moves.{Returns, returned, Returns-bind, Returns-close}
use keviq_core.Orchestrator.Cancellation.Loops.{Stopped, cancel_runs-Stopped, CanStop}
use keviq_core.Orchestrator.Cancellation.{handle_cancel_task}

write_all-keeps :
    (events : List OutboxEvent) (s : Session)
    → Returns
        (λ _ s'. (s'.db.tasks ≡ s.db.tasks) × (s'.db.runs ≡ s.db.runs) × (s'.db.steps ≡ s.db.steps))
        (for_each write events s)
unfolding for_each write
write_all-keeps [] s = returned tt s (refl, refl, refl)
write_all-keeps (e ∷ rest) s = write_all-keeps rest _

-- The active runs of a task, as the query finds them.
abbrev active_runs : ℕ → Run → Bool
active_runs task_id r = (r.task_id == task_id) && Run.is_active r.run_status

-- What is committed once a task is cancelled.
pub record Cancels (task_id : ℕ) (d d' : Db) : Type 0 where
  pub task_cancelled :
      (t : Task) × (task_at d' task_id ≡ some t) × (t.task_status ≡ TaskStatus.cancelled)
  pub runs_ended :
      (k : ℕ) (r : Run)
      → run_at d' k ≡ some r
      → r.task_id ≡ task_id
      → Run.is_active r.run_status ≡ false
  pub steps_ended :
      (k j : ℕ) (q : Step) (r : Run)
      → step_at d' k ≡ some q
      → run_at d j ≡ some r
      → q.run_id ≡ j
      → active_runs task_id r ≡ true
      → Step.is_active q.step_status ≡ false

ids-reloaded :
    (rows : List Run) → map (λ (r : Run). r.id) (map Run.reload rows) ≡ map (λ (r : Run). r.id) rows
unfolding Run.reload
ids-reloaded [] = refl
ids-reloaded (r ∷ rows) = rw (ids-reloaded rows) refl

-- The runs that the query returns can be cancelled.
cancellable-reloaded :
    (clock : ℕ → ℕ) (task_id : ℕ) (rows : List Run)
    → All (λ (r : Run). active_runs task_id r ≡ true → CanStop clock r) rows
    → All (CanStop clock) (map Run.reload (where_test (active_runs task_id) rows))
unfolding Run.reload
cancellable-reloaded clock task_id [] h = tt
cancellable-reloaded clock task_id (r ∷ rows) (h, hs) = elim (Bool-cases (active_runs task_id r)) [
  | inl p ↦ rw p (h p, cancellable-reloaded clock task_id rows hs)
  | inr p ↦ rw p (cancellable-reloaded clock task_id rows hs)
]

cancel-open :
    (t : Task) (now : ℕ)
    → Task.task_transitions t.task_status TaskStatus.cancelled ≡ true
    → Task.cancel now t
      ≡ ok (t.task_status, record t { task_status = TaskStatus.cancelled; updated_at = now })
unfolding Task.cancel
cancel-open t now h = ground arith

Stopped-Cancels :
    (task_id : ℕ) (t : Task) (s s₁ s₂ : Session) (d : Db)
    → t.id ≡ task_id
    → t.task_status ≡ TaskStatus.cancelled
    → (s₁.db.tasks ≡ Tables.save (λ x. x.id) t s.committed.tasks) × (s₁.db.runs ≡ s.committed.runs)
    → (ids : List ℕ)
    → ids ≡ map (λ (r : Run). r.id) (where_test (active_runs task_id) s.committed.runs)
    → Stopped ids s₁ s₂
    → (d.tasks ≡ s₂.db.tasks) × (d.runs ≡ s₂.db.runs) × (d.steps ≡ s₂.db.steps)
    → Cancels task_id s.committed d
Stopped-Cancels task_id t s s₁ s₂ d named status before ids same stopping after =
    let stopped = rw same at stopping in
    let listed = λ (j : ℕ) (r : Run).
      Tables.member-where_test (λ (x : Run). x.id) (active_runs task_id) j s.committed.runs r in
    record {
      task_cancelled = (
        t,
        rw (after.0, stopped.tasks, before.0)
            (Tables.find-save_self (λ (x : Task). x.id) task_id t _ named),
        status,
      );
      runs_ended = λ k r f own. elim (stopped.runs k r (rw (sym after.1) f)) [
        | inl d ↦ d
        | inr (m, g) ↦ elim (Bool-cases (Run.is_active r.run_status)) [
          | inl live ↦
              let hit =
                listed k r (rw (sym before.1) g) (rw (eq→== r.task_id task_id own, live) refl) in
              cc
          | inr d ↦ d
        ]
      ];
      steps_ended = λ k j q r f g own live.
          stopped.steps k q (rw (sym after.2) f) (rw own (listed j r g live));
    }

module _ (task_id by : ℕ) (t : Task) (s : Session) (found : task_at s.committed task_id ≡ some t)
    (sound : IsSound t) (may : Task.task_transitions t.task_status TaskStatus.cancelled ≡ true)
    (numbered : AreNumbered s.committed.steps)
    (cancellable : All
      (λ (r : Run). active_runs task_id r ≡ true → CanStop s.clock r)
      s.committed.runs) where
  -- Total correctness of a cancellation: if the task is stored, sound and in a status that the table lets
  -- be cancelled, none of its active runs is completing, the duration of each of them fits 32 bits at any
  -- reading of the clock, and every stored step has a sequence number
  -- that its constructor accepts, then the call returns; the task is then committed as cancelled, no
  -- run of it is active, and no step of a run of it that was active before is active.
  pub handle_cancel_task-Cancels :
      Returns (λ _ s'. Cancels task_id s.committed s'.committed) (handle_cancel_task task_id by s)
  unfolding handle_cancel_task with_uow list_active_by_task save_task
  handle_cancel_task-Cancels =
      let s' : Session = record s { db = s.committed } in
      let named : t.id ≡ task_id =
        Tables.key-find (λ (x : Task). x.id) task_id s.committed.tasks t found in
      let t' : Task = record t {
        task_status = TaskStatus.cancelled;
        updated_at = s.clock s.reads;
      } in
      let event : OutboxEvent =
        Events.task_cancelled_event t.id t.workspace_id (s.uuids s.draws) (some by) none
          (s.uuids (s.draws + 1)) (s.clock (s.reads + 1)) in
      rw (get_task-found s' task_id t found sound) (
        rw (cancel-open t (s.clock s.reads) may) (
          Returns-close {P = λ _ s₃. Cancels task_id s.committed s₃.committed}
            (Returns-bind
              (cancel_runs-Stopped t' (s.uuids s.draws) event _ _ _
                (cancellable-reloaded s.clock t.id s.committed.runs (rw named cancellable))
                numbered)
              λ result s₂ stopped.
                Returns-bind (write_all-keeps result.events s₂) λ _ s₃ (tasks, runs, steps).
                  returned _ _ (
                    Stopped-Cancels task_id t' s _ s₂ s₃.db named refl (refl, refl) _
                      (ids-reloaded _ ∙ rw named refl) stopped (tasks, runs, steps)))
            λ _ _ h. h))
