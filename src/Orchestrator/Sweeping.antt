-- ===== src/Orchestrator/Sweeping.antt =====
-- The loop that cancels the active steps of a run, for the recovery and for a task's cancellation.
use keviq_core.Prelude.{
  ℕ, ◌≡◌, ◌⊎◌, refl, sym, ◌∙◌, inl, inr, Bool, true, false, ◌&&◌, some, List, [], ◌∷◌, map, arith,
  ◌==◌, ltb, if◌then◌else◌, or_else, Bool-cases, eq→==, All, where_test, member,
}
use keviq_core.Prelude.Tables
use keviq_core.Errors.{ok}
use keviq_core.Orchestrator.Step
use keviq_core.Orchestrator.Step.{Step, StepStatus}
use keviq_core.Orchestrator.Session.{Session}
use keviq_core.Orchestrator.Repositories.{step_at, load_all}
use keviq_core.Orchestrator.Moves.{OnlyStep}

-- Every row has a sequence number that the constructor accepts.
abbrev pub AreNumbered : List Step → Type 0
AreNumbered steps = All (λ (q : Step). ltb q.sequence 1 ≡ false) steps

pub AreNumbered-save :
    (q : Step) (steps : List Step)
    → ltb q.sequence 1 ≡ false
    → AreNumbered steps
    → AreNumbered (Tables.save (λ r. r.id) q steps)
unfolding Tables.save
AreNumbered-save q [] h hs = (h, tt)
AreNumbered-save q (p ∷ steps) h (hp, hs) = elim (Bool-cases (p.id == q.id)) [
  | inl e ↦ rw e (h, hs)
  | inr e ↦ rw e (hp, AreNumbered-save q steps h hs)
]

-- A step that is cancelled.
abbrev pub cancelled_step : (t u : ℕ) → Step → Step
cancelled_step t u q = record q {
  step_status = StepStatus.cancelled;
  updated_at = t;
  completed_at = some (or_else q.completed_at u);
}

pub cancel-active :
    (t u : ℕ) (q : Step)
    → Step.is_active q.step_status ≡ true
    → Step.cancel t u q ≡ ok (q.step_status, cancelled_step t u q)
unfolding Step.cancel
cancel-active t u q h = ground arith

-- The loop has cancelled the steps with these identifiers and left the others alone.
pub record Swept (ids : List ℕ) (s s' : Session) : Type 0 where
  pub tasks : s'.db.tasks ≡ s.db.tasks
  pub runs : s'.db.runs ≡ s.db.runs
  pub committed : s'.committed ≡ s.committed
  pub clock : s'.clock ≡ s.clock
  pub numbered : AreNumbered s.db.steps → AreNumbered s'.db.steps
  pub steps :
      (k : ℕ) (q : Step)
      → step_at s'.db k ≡ some q
      → (Step.is_active q.step_status ≡ false) ⊎ (member k ids ≡ false) × (step_at s.db k ≡ some q)

Swept-cons :
    (k : ℕ) (q : Step) (q' : Step) (ids : List ℕ) (s s₁ : Session)
    → q'.id ≡ q.id
    → Step.is_active q'.step_status ≡ false
    → OnlyStep q' s s₁
    → (p : Step) → member k ids ≡ false
    → step_at s₁.db k ≡ some p
    → (Step.is_active p.step_status ≡ false)
      ⊎ (member k (q.id ∷ ids) ≡ false) × (step_at s.db k ≡ some p)
Swept-cons k q q' ids s s₁ e dead only p m h =
    let found : (if q'.id == k then some q' else step_at s.db k) ≡ some p =
      sym (Tables.find-save (λ (r : Step). r.id) k q' s.db.steps) ∙ sym (rw only.steps refl) ∙ h in
    elim (Bool-cases (q'.id == k)) [
      | inl hit ↦ inl (ground (arith, hit, found, dead))
      | inr miss ↦ inr (ground (arith, e, miss, m), ground (arith, found, miss))
    ]

pub Swept-nil : (s : Session) → Swept [] s s
Swept-nil s = record {
  tasks = refl;
  runs = refl;
  committed = refl;
  clock = refl;
  numbered = λ n. n;
  steps = λ k q f. inr (refl, f);
}

-- One step more is cancelled before the others.
pub Swept-next :
    (q q' : Step) (ids : List ℕ) (s s₁ s₂ : Session)
    → q'.id ≡ q.id
    → Step.is_active q'.step_status ≡ false
    → ltb q'.sequence 1 ≡ false
    → OnlyStep q' s s₁
    → Swept ids s₁ s₂
    → Swept (q.id ∷ ids) s s₂
Swept-next q q' ids s s₁ s₂ e dead counted only swept = record {
  tasks = swept.tasks ∙ only.tasks;
  runs = swept.runs ∙ only.runs;
  committed = swept.committed ∙ only.committed;
  clock = swept.clock ∙ only.clock;
  numbered = λ n. swept.numbered (rw only.steps (AreNumbered-save q' s.db.steps counted n));
  steps = λ k p f. elim (swept.steps k p f) [
    | inl d ↦ inl d
    | inr (m, g) ↦ Swept-cons k q q' ids s s₁ e dead only p m g
  ];
}

-- Rows that the constructor accepts are loaded as they are.
pub load_all-numbered :
    (steps : List Step)
    → All (λ (q : Step). ltb q.sequence 1 ≡ false) steps
    → load_all Step.reload steps ≡ ok steps
unfolding Step.reload
load_all-numbered [] h = refl
load_all-numbered (q ∷ rest) (h, hs) = rw (h, load_all-numbered rest hs) refl

-- The steps of a run that a query for the active ones returns.
abbrev pub active_of : ℕ → Step → Bool
active_of run_id q = (q.run_id == run_id) && Step.is_active q.step_status

pub active_of-live :
    (run_id : ℕ) (q : Step) → active_of run_id q ≡ true → Step.is_active q.step_status ≡ true
active_of-live run_id q h = ground arith

pub Swept-none :
    (run_id : ℕ) (s s' : Session)
    → Swept (map (λ (q : Step). q.id) (where_test (active_of run_id) s.db.steps)) s s'
    → (k : ℕ) (q : Step) → step_at s'.db k ≡ some q
    → q.run_id ≡ run_id
    → Step.is_active q.step_status ≡ false
Swept-none run_id s s' swept k q f own = elim (swept.steps k q f) [
  | inl dead ↦ dead
  | inr (missed, g) ↦ elim (Bool-cases (Step.is_active q.step_status)) [
    | inl live ↦
        let listed =
          Tables.member-where_test (λ (p : Step). p.id) (active_of run_id) k s.db.steps q g
            (rw (eq→== q.run_id run_id own, live) refl) in
        cc
    | inr dead ↦ dead
  ]
]
