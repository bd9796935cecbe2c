-- ===== src/Orchestrator/Step/Lifecycle.antt =====
-- The methods of `Step` as one operation, and what they keep true.
use keviq_core.Prelude.{ℕ, ◌≤◌, ◌≡◌, ◌⊎◌, Bool, true, false, Option, none, is_some, arith}
use keviq_core.Errors.{invalid_transition, terminal_state, Result, ok, err}
use keviq_core.Orchestrator.Task.{Dict}
use keviq_core.Orchestrator.Step
use keviq_core.Orchestrator.Step.{
  Step, StepStatus, StepType, pending, running, waiting_approval, blocked, completed, failed,
  skipped, cancelled, step_terminal,
}

-- A call of one of the methods that move a step, with the clock readings that it makes.
pub data StepCall : Type 0 where
  starts : Option Dict → ℕ → ℕ → StepCall
  completes : Dict → ℕ → ℕ → StepCall
  fails : Option Dict → ℕ → ℕ → StepCall
  skips cancels : ℕ → ℕ → StepCall
  requests_approval approves blocks unblocks : ℕ → StepCall

unfoldable pub call : StepCall → Step → Result (StepStatus × Step)
unfolding Step.start Step.complete Step.fail Step.skip Step.cancel Step.request_approval
    Step.approve Step.block Step.unblock
call (starts snapshot now now') = Step.start snapshot now now'
call (completes snapshot now now') = Step.complete snapshot now now'
call (fails detail now now') = Step.fail detail now now'
call (skips now now') = Step.skip now now'
call (cancels now now') = Step.cancel now now'
call (requests_approval now) = Step.request_approval now
call (approves now) = Step.approve now
call (blocks now) = Step.block now
call (unblocks now) = Step.unblock now

-- The lifecycle of the documentation: which call moves a step from where to where.
pub data Follows : StepCall → StepStatus → StepStatus → Type 0 where
  start : (d : Option Dict) (t u : ℕ) → Follows (starts d t u) pending running
  complete : (d : Dict) (t u : ℕ) → Follows (completes d t u) running completed
  fail_running : (d : Option Dict) (t u : ℕ) → Follows (fails d t u) running failed
  fail_blocked : (d : Option Dict) (t u : ℕ) → Follows (fails d t u) blocked failed
  skip : (t u : ℕ) → Follows (skips t u) pending skipped
  cancel_pending : (t u : ℕ) → Follows (cancels t u) pending cancelled
  cancel_running : (t u : ℕ) → Follows (cancels t u) running cancelled
  cancel_waiting : (t u : ℕ) → Follows (cancels t u) waiting_approval cancelled
  cancel_blocked : (t u : ℕ) → Follows (cancels t u) blocked cancelled
  ask : (t : ℕ) → Follows (requests_approval t) running waiting_approval
  approve : (t : ℕ) → Follows (approves t) waiting_approval running
  block : (t : ℕ) → Follows (blocks t) running blocked
  unblock : (t : ℕ) → Follows (unblocks t) blocked running

ruleset diagram = (
  start, complete, fail_running, fail_blocked, skip, cancel_pending, cancel_running, cancel_waiting,
  cancel_blocked, ask, approve, block, unblock,
)

-- Every call that is accepted moves the step along an arrow that the documentation gives to that
-- call, and reports the status that the step had.
pub step_call-Follows :
    (c : StepCall) (s s' : Step) (prev : StepStatus)
    → call c s ≡ ok (prev, s')
    → (prev ≡ s.step_status) × Follows c s.step_status s'.step_status
unfolding call
step_call-Follows c s s' prev h = (ground arith, grind (arith, diagram))

-- The call returned `prev` and left a step in `status`.
abbrev pub Arrives : StepStatus → StepStatus → Result (StepStatus × Step) → Type 0
Arrives prev status (ok (p, s')) = (p ≡ prev) × (s'.step_status ≡ status)
Arrives prev status (err _) = ⊥

-- The converse: a call that the documentation allows from the present status is accepted and leads
-- where it says.
pub Follows-step_call :
    {c : StepCall} {t u : StepStatus} (s : Step)
    → Follows c t u
    → s.step_status ≡ t
    → Arrives t u (call c s)
unfolding call
Follows-step_call s (start d t u) q = ground arith
Follows-step_call s _ q = ground arith

-- A step refuses every call once it is completed, failed, skipped or cancelled, with a
-- `TerminalStateError` or with an `InvalidTransitionError`.
pub step_call-terminal :
    (c : StepCall) (s : Step)
    → step_terminal s.step_status ≡ true
    → (call c s ≡ err terminal_state) ⊎ (call c s ≡ err invalid_transition)
unfolding call
step_call-terminal c s h = ground arith

abbrev pub is_completed : StepStatus → Bool
is_completed completed = true
is_completed _ = false

abbrev not_started : StepStatus → Bool
not_started pending = true
not_started skipped = true
not_started cancelled = true
not_started _ = false

-- What the number, the end time and the snapshot of a step say of its status.
pub record IsTimed (s : Step) : Type 0 where
  pub numbered : 1 ≤ s.sequence
  pub ended : is_some s.completed_at ≡ step_terminal s.step_status
  pub output : is_some s.output_snapshot ≡ is_completed s.step_status
  pub started : s.started_at ≡ none → not_started s.step_status ≡ true

pub new-IsTimed :
    (fresh now run_id workspace_id sequence : ℕ) (type : StepType) (s : Step)
    → Step.new fresh now run_id workspace_id sequence type ≡ ok s
    → IsTimed s
unfolding Step.new
new-IsTimed fresh now run_id workspace_id sequence type s h = ground arith

pub call-IsTimed :
    (c : StepCall) (s s' : Step) (prev : StepStatus)
    → IsTimed s
    → call c s ≡ ok (prev, s')
    → IsTimed s'
unfolding call
call-IsTimed c s s' prev v h = ground arith

-- The steps that calls can lead to; a call that raises changes nothing.
pub data Reachable : Step → Type 0 where
  created :
      (fresh now run_id workspace_id sequence : ℕ) (type : StepType) (s : Step)
      → Step.new fresh now run_id workspace_id sequence type ≡ ok s
      → Reachable s
  called :
      (c : StepCall) (s s' : Step) (prev : StepStatus)
      → Reachable s
      → call c s ≡ ok (prev, s')
      → Reachable s'

-- A step that was created and moved only by its methods has a number of at least 1; it has an end
-- time exactly when it is completed, failed, skipped or cancelled; it has an output snapshot exactly
-- when it is completed; and without a start time it is pending, skipped or cancelled.
pub Reachable-IsTimed : {s : Step} → Reachable s → IsTimed s
Reachable-IsTimed (created fresh now run_id workspace_id sequence type s h) =
    new-IsTimed fresh now run_id workspace_id sequence type s h
Reachable-IsTimed (called c s s' prev r h) = call-IsTimed c s s' prev (Reachable-IsTimed r) h
