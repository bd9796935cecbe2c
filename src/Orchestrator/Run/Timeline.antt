-- ===== src/Orchestrator/Run/Timeline.antt =====
-- The methods of `Run` as one operation, and what they keep true of its times and its lock.
use keviq_core.Prelude.{
  ℕ, String, ◌≡◌, Bool, true, false, Option, none, some, List, [], ◌∷◌, is_some, arith,
}
use keviq_core.Errors.{Result, ok, err}
use keviq_core.Orchestrator.Run
use keviq_core.Orchestrator.Run.{
  Run, RunStatus, queued, preparing, running, waiting_approval, completing, completed, failed,
  timed_out, cancelled, is_queued, compute_duration, run_terminal,
}

-- A call of one of the methods that move a run, with the clock readings that it makes.
pub data RunCall : Type 0 where
  prepares requests_approval approves begins_completing : ℕ → RunCall
  starts completes cancels times_out : ℕ → ℕ → RunCall
  fails : Option String → ℕ → ℕ → RunCall

unfoldable pub call : RunCall → Run → Result (RunStatus × Run)
unfolding Run.prepare Run.start Run.request_approval Run.approve Run.begin_completing Run.complete
    Run.fail Run.cancel Run.time_out
call (prepares now) = Run.prepare now
call (starts now now') = Run.start now now'
call (requests_approval now) = Run.request_approval now
call (approves now) = Run.approve now
call (begins_completing now) = Run.begin_completing now
call (completes now now') = Run.complete now now'
call (fails summary now now') = Run.fail summary now now'
call (cancels now now') = Run.cancel now now'
call (times_out now now') = Run.time_out now now'

-- A run has an end time as soon as it has ended one way or the other.
abbrev pub has_ended : RunStatus → Bool
has_ended completed = true
has_ended failed = true
has_ended timed_out = true
has_ended cancelled = true
has_ended _ = false

abbrev not_started : RunStatus → Bool
not_started queued = true
not_started preparing = true
not_started _ = false

pub record IsTimed (r : Run) : Type 0 where
  pub ended : is_some r.completed_at ≡ has_ended r.run_status
  pub waiting : not_started r.run_status ≡ true → r.started_at ≡ none
  pub measured : (t : ℕ) → r.completed_at ≡ some t → r.duration_ms ≡ compute_duration r.started_at t
  pub unmeasured : r.completed_at ≡ none → r.duration_ms ≡ none

call-ended :
    (c : RunCall) (r r' : Run) (prev : RunStatus)
    → is_some r.completed_at ≡ has_ended r.run_status
    → call c r ≡ ok (prev, r')
    → is_some r'.completed_at ≡ has_ended r'.run_status
unfolding call
call-ended c r r' prev v h = ground arith

call-waiting :
    (c : RunCall) (r r' : Run) (prev : RunStatus)
    → (not_started r.run_status ≡ true → r.started_at ≡ none)
    → call c r ≡ ok (prev, r')
    → not_started r'.run_status ≡ true
    → r'.started_at ≡ none
unfolding call
call-waiting c r r' prev v h = ground arith

call-measured :
    (c : RunCall) (r r' : Run) (prev : RunStatus) (t : ℕ)
    → (r.completed_at ≡ some t → r.duration_ms ≡ compute_duration r.started_at t)
    → is_some r.completed_at ≡ has_ended r.run_status
    → call c r ≡ ok (prev, r')
    → r'.completed_at ≡ some t
    → r'.duration_ms ≡ compute_duration r'.started_at t
unfolding call
call-measured c r r' prev t v w h = ground arith

call-unmeasured :
    (c : RunCall) (r r' : Run) (prev : RunStatus)
    → (r.completed_at ≡ none → r.duration_ms ≡ none)
    → call c r ≡ ok (prev, r')
    → r'.completed_at ≡ none
    → r'.duration_ms ≡ none
unfolding call
call-unmeasured c r r' prev v h = ground arith

pub call-IsTimed :
    (c : RunCall) (r r' : Run) (prev : RunStatus)
    → IsTimed r
    → call c r ≡ ok (prev, r')
    → IsTimed r'
call-IsTimed c r r' prev v h = record {
  ended = call-ended c r r' prev v.ended h;
  waiting = call-waiting c r r' prev v.waiting h;
  measured = λ t. call-measured c r r' prev t (v.measured t) v.ended h;
  unmeasured = call-unmeasured c r r' prev v.unmeasured h;
}

-- A sequence of calls; one that raises leaves the run as it is.
unfoldable pub attempt : Result (RunStatus × Run) → Run → Run
attempt (ok (_, r')) r = r'
attempt (err _) r = r

unfoldable pub calls : List RunCall → Run → Run
unfolding attempt
calls [] r = r
calls (c ∷ cs) r = calls cs (attempt (call c r) r)

-- Past `preparing` a run has been started, unless it failed or was cancelled before.
abbrev pub was_started : RunStatus → Bool
was_started running = true
was_started waiting_approval = true
was_started completing = true
was_started completed = true
was_started timed_out = true
was_started _ = false

-- What the docstring of `approve` says: waiting_approval → running.
abbrev is_waiting : RunStatus → Bool
is_waiting waiting_approval = true
is_waiting _ = false

-- The call is not an `approve` of a run that waits for none.
abbrev pub approves_waiting : RunCall → RunStatus → Bool
approves_waiting (approves _) s = is_waiting s
approves_waiting _ s = true

-- A run that is past preparing has a start time, as long as `approve` is called only on a run that
-- waits for an approval.
pub call-started :
    (c : RunCall) (r r' : Run) (prev : RunStatus)
    → approves_waiting c r.run_status ≡ true
    → (was_started r.run_status ≡ true → is_some r.started_at ≡ true)
    → call c r ≡ ok (prev, r')
    → was_started r'.run_status ≡ true
    → is_some r'.started_at ≡ true
unfolding call
call-started c r r' prev d v h = ground arith

-- `approve` accepts a run that is still preparing: the run is then running, completes without an
-- error, and in the end has no start time and no duration.
pub approve-preparing :
    (r : Run) (t₀ t₁ t₂ t₃ : ℕ)
    → r.run_status ≡ preparing
    → r.started_at ≡ none
    → let s = calls (approves t₀ ∷ begins_completing t₁ ∷ completes t₂ t₃ ∷ []) r in
      (s.run_status ≡ completed)
      × (s.started_at ≡ none)
      × (s.completed_at ≡ some t₃)
      × (s.duration_ms ≡ none)
unfolding call calls
approve-preparing r t₀ t₁ t₂ t₃ p q = (simp (p, q), simp (p, q), simp (p, q), simp (p, q))
