-- ===== src/Orchestrator/Moves.antt =====
-- What the execution loop does again and again: read the clock, move an entity, save it, write the
-- event of the move. The laws leave the sessions in between abstract.
use keviq_core.Prelude.{true, ℕ, ◌+◌, ◌≡◌, refl, some}
use keviq_core.Prelude.Tables
use keviq_core.Errors.{Result, ok}
pub use keviq_core.Transaction.Returns.{
  Returns, returned, Returns-bind, Returns-weaken, Returns-inv, Returns-close, Returns-recover,
}
use keviq_core.Orchestrator.Task.{Task, TaskStatus}
use keviq_core.Orchestrator.Run.{Run, RunStatus}
use keviq_core.Orchestrator.Step.{Step, StepStatus}
use keviq_core.Orchestrator.Events.{OutboxEvent, Draft}
use keviq_core.Orchestrator.Session.{Session, Tx, ◌>>=◌, ◌>>◌, pure, lift, now, draw, write}
use keviq_core.Orchestrator.Repositories.{
  fits, save_task, save_run, save_step, task_at, run_at, step_at,
}

-- A method that reads the clock once, and one that reads it twice.
unfoldable pub once : {A : Type 0} → (ℕ → Result A) → Tx A
once f = do t₁ ← now; lift (f t₁)

unfoldable pub twice : {A : Type 0} → (ℕ → ℕ → Result A) → Tx A
twice f = do t₁ ← now; t₂ ← now; lift (f t₁ t₂)

-- `uow.outbox.write(event(…))`
unfoldable pub emit : Draft → Tx OutboxEvent
unfolding draw write
emit draft = do event ← draw draft; write event; pure event

unfoldable pub move_task : Tx (TaskStatus × Task) → (Task → Draft) → Tx (Task × OutboxEvent)
unfolding save_task emit
move_task move draft = do (_, t) ← move; save_task t; event ← emit (draft t); pure (t, event)

unfoldable pub move_run : Tx (RunStatus × Run) → (Run → Draft) → Tx (Run × OutboxEvent)
unfolding save_run emit
move_run move draft = do (_, r) ← move; save_run r; event ← emit (draft r); pure (r, event)

unfoldable pub move_step : Tx (StepStatus × Step) → (Step → Draft) → Tx (Step × OutboxEvent)
unfolding save_step emit
move_step move draft = do (_, q) ← move; save_step q; event ← emit (draft q); pure (q, event)

-- The session is as it was, but for one table, the outbox, the clock and the identifiers.
pub record OnlyTask (t : Task) (s s' : Session) : Type 0 where
  pub tasks : s'.db.tasks ≡ Tables.save (λ r. r.id) t s.db.tasks
  pub runs : s'.db.runs ≡ s.db.runs
  pub steps : s'.db.steps ≡ s.db.steps
  pub committed : s'.committed ≡ s.committed
  pub port_calls : s'.port_calls ≡ s.port_calls
  pub clock : s'.clock ≡ s.clock

pub record OnlyRun (r : Run) (s s' : Session) : Type 0 where
  pub tasks : s'.db.tasks ≡ s.db.tasks
  pub runs : s'.db.runs ≡ Tables.save (λ q. q.id) r s.db.runs
  pub steps : s'.db.steps ≡ s.db.steps
  pub committed : s'.committed ≡ s.committed
  pub port_calls : s'.port_calls ≡ s.port_calls
  pub clock : s'.clock ≡ s.clock

pub record OnlyStep (q : Step) (s s' : Session) : Type 0 where
  pub tasks : s'.db.tasks ≡ s.db.tasks
  pub runs : s'.db.runs ≡ s.db.runs
  pub steps : s'.db.steps ≡ Tables.save (λ r. r.id) q s.db.steps
  pub committed : s'.committed ≡ s.committed
  pub port_calls : s'.port_calls ≡ s.port_calls
  pub clock : s'.clock ≡ s.clock

-- What was saved is found.
pub OnlyTask-found :
    {t : Task} {s s' : Session} (k : ℕ) → OnlyTask t s s' → t.id ≡ k → task_at s'.db k ≡ some t
OnlyTask-found {t} {s} k only e = rw only.tasks (Tables.find-save_self (λ r. r.id) k t s.db.tasks e)

pub OnlyRun-found :
    {r : Run} {s s' : Session} (k : ℕ) → OnlyRun r s s' → r.id ≡ k → run_at s'.db k ≡ some r
OnlyRun-found {r} {s} k only e = rw only.runs (Tables.find-save_self (λ q. q.id) k r s.db.runs e)

pub OnlyStep-found :
    {q : Step} {s s' : Session} (k : ℕ) → OnlyStep q s s' → q.id ≡ k → step_at s'.db k ≡ some q
OnlyStep-found {q} {s} k only e = rw only.steps (Tables.find-save_self (λ r. r.id) k q s.db.steps e)

module _ (s : Session) where
  pub move_task-Returns :
      (f : ℕ → Result (TaskStatus × Task)) (draft : Task → Draft) (P : Task → Type 0)
      (p : TaskStatus) (g : ℕ → Task)
      → ((t₁ : ℕ) → f t₁ ≡ ok (p, g t₁))
      → ((t₁ : ℕ) → P (g t₁))
      → Returns (λ (t, e) s'. P t × OnlyTask t s s') (move_task (once f) draft s)
  unfolding move_task once
  move_task-Returns f draft P p g e h = rw (e (s.clock s.reads)) (
      returned _ _ (
        h (s.clock s.reads),
        record {
          tasks = refl;
          runs = refl;
          steps = refl;
          committed = refl;
          port_calls = refl;
          clock = refl;
        },
      ))

  pub move_run-once-Returns :
      (f : ℕ → Result (RunStatus × Run)) (draft : Run → Draft) (P : Run → Type 0) (p : RunStatus)
      (g : ℕ → Run)
      → ((t₁ : ℕ) → f t₁ ≡ ok (p, g t₁))
      → ((t₁ : ℕ) → P (g t₁))
      → ((t₁ : ℕ) → fits (g t₁).duration_ms ≡ true)
      → Returns (λ (r, e) s'. P r × OnlyRun r s s') (move_run (once f) draft s)
  unfolding move_run once
  move_run-once-Returns f draft P p g e h small =
      rw (e (s.clock s.reads), small (s.clock s.reads))
        (returned _ _ (
          h (s.clock s.reads),
          record {
            tasks = refl;
            runs = refl;
            steps = refl;
            committed = refl;
            port_calls = refl;
            clock = refl;
          },
        ))

  pub move_run-twice-Returns :
      (f : ℕ → ℕ → Result (RunStatus × Run)) (draft : Run → Draft) (P : Run → Type 0)
      (p : RunStatus) (g : ℕ → ℕ → Run)
      → ((t₁ t₂ : ℕ) → f t₁ t₂ ≡ ok (p, g t₁ t₂))
      → P (g (s.clock s.reads) (s.clock (s.reads + 1)))
      → fits (g (s.clock s.reads) (s.clock (s.reads + 1))).duration_ms ≡ true
      → Returns (λ (r, e) s'. P r × OnlyRun r s s') (move_run (twice f) draft s)
  unfolding move_run twice
  move_run-twice-Returns f draft P p g e h small =
      rw (e (s.clock s.reads) (s.clock (s.reads + 1)), small)
        (returned _ _ (
          h,
          record {
            tasks = refl;
            runs = refl;
            steps = refl;
            committed = refl;
            port_calls = refl;
            clock = refl;
          },
        ))

  pub move_step-Returns :
      (f : ℕ → ℕ → Result (StepStatus × Step)) (draft : Step → Draft) (P : Step → Type 0)
      (p : StepStatus) (g : ℕ → ℕ → Step)
      → ((t₁ t₂ : ℕ) → f t₁ t₂ ≡ ok (p, g t₁ t₂))
      → ((t₁ t₂ : ℕ) → P (g t₁ t₂))
      → Returns (λ (q, e) s'. P q × OnlyStep q s s') (move_step (twice f) draft s)
  unfolding move_step twice
  move_step-Returns f draft P p g e h = rw (e (s.clock s.reads) (s.clock (s.reads + 1))) (
      returned _ _ (
        h (s.clock s.reads) (s.clock (s.reads + 1)),
        record {
          tasks = refl;
          runs = refl;
          steps = refl;
          committed = refl;
          port_calls = refl;
          clock = refl;
        },
      ))
