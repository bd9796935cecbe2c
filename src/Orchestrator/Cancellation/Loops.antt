-- ===== src/Orchestrator/Cancellation/Loops.antt =====
-- The two nested loops of a cancellation: the active runs, and the active steps of each.
use keviq_core.Prelude.{
  ℕ, ◌+◌, ◌≡◌, ◌⊎◌, refl, sym, ◌∙◌, inl, inr, Bool, true, false, some, List, [], ◌∷◌, map, arith,
  ◌==◌, or_else, Bool-cases, ==→eq, All, member, All-where_test, All-kept, All-implies,
}
use keviq_core.Prelude.Tables
use keviq_core.Errors.{ok}
use keviq_core.Orchestrator.Task.{Task}
use keviq_core.Orchestrator.Run
use keviq_core.Orchestrator.Run.{Run, RunStatus}
use keviq_core.Orchestrator.Step
use keviq_core.Orchestrator.Step.{Step, StepStatus}
use keviq_core.Orchestrator.Events
use keviq_core.Orchestrator.Events.{OutboxEvent}
use keviq_core.Orchestrator.Session.{Session}
use keviq_core.Orchestrator.Repositories.{
  run_at, step_at, list_active_by_run, save_step, save_run, fits,
}
use keviq_core.Orchestrator.Sweeping.{
  Swept, Swept-nil, Swept-next, Swept-none, cancelled_step, cancel-active, load_all-numbered,
  active_of, active_of-live, AreNumbered,
}
use keviq_core.Orchestrator.Moves.{Returns, returned, Returns-bind, Returns-weaken}
use keviq_core.Orchestrator.Cancellation.{Cancelled, cancel_steps, cancel_runs}

cancel_steps-Swept :
    (task : Task) (run : Run) (corr : ℕ) (event : OutboxEvent) (steps : List Step) (acc : Cancelled)
    (s : Session)
    → All (λ (q : Step). Step.is_active q.step_status ≡ true) steps
    → AreNumbered steps
    → Returns
        (λ _ s'. Swept (map (λ (q : Step). q.id) steps) s s')
        (cancel_steps task run corr event acc steps s)
unfolding cancel_steps save_step
cancel_steps-Swept task run corr event [] acc s h n = returned acc s (Swept-nil s)
cancel_steps-Swept task run corr event (q ∷ rest) acc s (h, hs) (n, ns) =
    rw (cancel-active (s.clock s.reads) (s.clock (s.reads + 1)) q h) (
      Returns-weaken (cancel_steps-Swept task run corr event rest _ _ hs ns) λ _ s₂ swept.
        Swept-next q (cancelled_step (s.clock s.reads) (s.clock (s.reads + 1)) q) _ s _ s₂ refl refl
          n
          (record {
            tasks = refl;
            runs = refl;
            steps = refl;
            committed = refl;
            port_calls = refl;
            clock = refl;
          })
          swept)

-- A run that can be cancelled: active, and not completing.
abbrev pub is_cancellable : RunStatus → Bool
is_cancellable RunStatus.completing = false
is_cancellable status = Run.is_active status

-- One whose duration also fits the column, whatever the clock reads.
abbrev pub CanStop : (clock : ℕ → ℕ) → Run → Type 0
CanStop clock r =
    (is_cancellable r.run_status ≡ true)
    × ((n : ℕ) → fits (Run.compute_duration r.started_at (or_else r.completed_at (clock n))) ≡ true)

abbrev cancelled_run : (t u : ℕ) → Run → Run
cancelled_run t u r = record r {
  run_status = RunStatus.cancelled;
  updated_at = t;
  completed_at = some (or_else r.completed_at u);
  duration_ms = Run.compute_duration r.started_at (or_else r.completed_at u);
}

cancel-cancellable :
    (t u : ℕ) (r : Run)
    → is_cancellable r.run_status ≡ true
    → Run.cancel t u r ≡ ok (r.run_status, cancelled_run t u r)
unfolding Run.cancel
cancel-cancellable t u r h = ground arith

-- The loop has cancelled the runs with these identifiers, and their steps, and left the others.
pub record Stopped (ids : List ℕ) (s s' : Session) : Type 0 where
  pub tasks : s'.db.tasks ≡ s.db.tasks
  pub committed : s'.committed ≡ s.committed
  pub runs :
      (k : ℕ) (r : Run)
      → run_at s'.db k ≡ some r
      → (Run.is_active r.run_status ≡ false) ⊎ (member k ids ≡ false) × (run_at s.db k ≡ some r)
  pub steps :
      (k : ℕ) (q : Step)
      → step_at s'.db k ≡ some q
      → member q.run_id ids ≡ true
      → Step.is_active q.step_status ≡ false
  pub dead_stay :
      (k : ℕ) (q : Step)
      → step_at s'.db k ≡ some q
      → (Step.is_active q.step_status ≡ false) ⊎ (step_at s.db k ≡ some q)

Stopped-nil : (s : Session) → Stopped [] s s
Stopped-nil s = record {
  tasks = refl;
  committed = refl;
  runs = λ k r f. inr (refl, f);
  steps = λ k q f m. ground arith;
  dead_stay = λ k q f. inr f;
}

runs-cons :
    (k : ℕ) (r r' : Run) (ids : List ℕ) (old : List Run) (p : Run)
    → r'.id ≡ r.id
    → Run.is_active r'.run_status ≡ false
    → member k ids ≡ false
    → Tables.find (λ (x : Run). x.id) k (Tables.save (λ x. x.id) r' old) ≡ some p
    → (Run.is_active p.run_status ≡ false)
      ⊎ (member k (r.id ∷ ids) ≡ false) × (Tables.find (λ (x : Run). x.id) k old ≡ some p)
runs-cons k r r' ids old p e dead m h =
    let found = sym (Tables.find-save (λ (x : Run). x.id) k r' old) ∙ h in
    elim (Bool-cases (r'.id == k)) [
      | inl hit ↦ inl (ground (arith, hit, found, dead))
      | inr miss ↦ inr (ground (arith, e, miss, m), ground (arith, found, miss))
    ]

module _ (r r' : Run) (ids stopped : List ℕ) (s s₁ s₂ s₃ : Session) (same : r'.id ≡ r.id)
    (dead : Run.is_active r'.run_status ≡ false)
    (saved : s₁.db.runs ≡ Tables.save (λ x. x.id) r' s.db.runs)
    (kept : (s₁.db.steps ≡ s.db.steps) × (s₁.db.tasks ≡ s.db.tasks) × (s₁.committed ≡ s.committed))
    (swept : Swept ids s₁ s₂)
    (none_left : (k : ℕ) (q : Step)
      → step_at s₂.db k ≡ some q
      → q.run_id ≡ r.id
      → Step.is_active q.step_status ≡ false)
    (rest : Stopped stopped s₂ s₃) where
  Stopped-next : Stopped (r.id ∷ stopped) s s₃
  Stopped-next = record {
    tasks = rest.tasks ∙ swept.tasks ∙ kept.1;
    committed = rest.committed ∙ swept.committed ∙ kept.2;
    runs = λ k p f. elim (rest.runs k p f) [
      | inl d ↦ inl d
      | inr (m, g) ↦
          runs-cons k r r' stopped s.db.runs p same dead m (rw (sym saved, sym swept.runs) g)
    ];
    steps = λ k q f m. elim (Bool-cases (q.run_id == r.id)) [
      | inl own ↦ elim (rest.dead_stay k q f) [
        | inl d ↦ d
        | inr g ↦ none_left k q g (==→eq q.run_id r.id own)
      ]
      | inr other ↦ rest.steps k q f (rw other at m)
    ];
    dead_stay = λ k q f. elim (rest.dead_stay k q f) [
      | inl d ↦ inl d
      | inr g ↦ elim (swept.steps k q g) [ inl d ↦ inl d | inr (_, g') ↦ inr (rw (sym kept.0) g') ]
    ];
  }

pub cancel_runs-Stopped :
    (task : Task) (corr : ℕ) (event : OutboxEvent) (runs : List Run) (acc : Cancelled) (s : Session)
    → All (CanStop s.clock) runs
    → AreNumbered s.db.steps
    → Returns
        (λ _ s'. Stopped (map (λ (r : Run). r.id) runs) s s')
        (cancel_runs task corr event acc runs s)
unfolding cancel_runs save_run list_active_by_run
cancel_runs-Stopped task corr event [] acc s h n = returned acc s (Stopped-nil s)
cancel_runs-Stopped task corr event (r ∷ rest) acc s ((h, small), hs) n =
    let r' : Run = cancelled_run (s.clock s.reads) (s.clock (s.reads + 1)) r in
    let announced : OutboxEvent =
      Events.run_cancelled_event r.id task.id task.workspace_id corr (some event.event_id)
        (s.uuids s.draws) (s.clock (s.reads + 1 + 1)) in
    rw (cancel-cancellable (s.clock s.reads) (s.clock (s.reads + 1)) r h, small (s.reads + 1))
      (rw (load_all-numbered _ (All-kept _ (active_of r.id) s.db.steps n)) (
        Returns-bind
          (cancel_steps-Swept task r' corr announced _ _ _
            (All-implies _ (active_of-live r.id) (All-where_test (active_of r.id) s.db.steps))
            (All-kept _ (active_of r.id) s.db.steps n))
          λ acc' s₂ swept.
            Returns-weaken
              (cancel_runs-Stopped task corr event rest acc' s₂ (rw swept.clock hs)
                (swept.numbered n))
              λ _ s₃ stopped.
                Stopped-next r r' _ _ s _ s₂ s₃ refl refl refl (refl, refl, refl) swept
                  (Swept-none r.id _ s₂ swept) stopped))
