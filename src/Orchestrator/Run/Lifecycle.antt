-- ===== src/Orchestrator/Run/Lifecycle.antt =====
-- The lifecycle of a run, and the lock on its configuration.
use keviq_core.Prelude.{ℕ, ◌≡◌, ◌⊎◌, refl, inl, true, false, arith}
use keviq_core.Errors.{immutable_field, terminal_state, ok, err}
use keviq_core.Machine.{Reach, here, next, fire}
use keviq_core.Orchestrator.Task.{Dict}
use keviq_core.Orchestrator.Run
use keviq_core.Orchestrator.Run.{
  Run, RunStatus, queued, preparing, running, waiting_approval, completing, completed, failed,
  timed_out, cancelled, is_queued, run_machine, run_terminal,
}
use keviq_core.Orchestrator.Run.Timeline.{RunCall, call, has_ended}

-- Every accepted call reports the status that the run had, follows an edge of the table, and keeps
-- the identity of the run, its task, its workspace, its trigger and its configuration.
pub call-edge :
    (c : RunCall) (r r' : Run) (prev : RunStatus)
    → call c r ≡ ok (prev, r')
    → (prev ≡ r.run_status)
      × (fire run_machine r.run_status r'.run_status ≡ ok r'.run_status)
      × (r'.id ≡ r.id)
      × (r'.task_id ≡ r.task_id)
      × (r'.workspace_id ≡ r.workspace_id)
      × (r'.trigger_type ≡ r.trigger_type)
      × (r'.run_config ≡ r.run_config)
unfolding call fire
call-edge c r r' prev h = ground arith

-- A run refuses every call with `TerminalStateError` once it is completed, failed or cancelled.
pub call-terminal :
    (c : RunCall) (r : Run) → run_terminal r.run_status ≡ true → call c r ≡ err terminal_state
unfolding call
call-terminal c r h = ground arith

-- What a run can still become once it has ended.
abbrev Settles : RunStatus → RunStatus → Type 0
Settles s t = (t ≡ s) ⊎ (s ≡ timed_out) × (t ≡ cancelled)

Settles-fire :
    (s t u : RunStatus)
    → has_ended s ≡ true
    → Settles s t
    → fire run_machine t u ≡ ok u
    → Settles s u
unfolding fire
Settles-fire s t u e h f = ground arith

-- No resume: a run that has ended keeps its status for good, except that a run which timed out may
-- still be cancelled.
pub ended-settles :
    (s t : RunStatus)
    → has_ended s ≡ true
    → Reach run_machine s t
    → (t ≡ s) ⊎ (s ≡ timed_out) × (t ≡ cancelled)
ended-settles s t e here = inl refl
ended-settles s t e (next u r f) = Settles-fire s _ u e (ended-settles s _ e r) f

-- Once a run has been through `prepare`, no accepted call unlocks its configuration.
pub call-locked :
    (c : RunCall) (r r' : Run) (prev : RunStatus) (config : Dict)
    → r.config_locked ≡ true
    → call c r ≡ ok (prev, r')
    → Run.update_config config r' ≡ err immutable_field
unfolding call Run.update_config
call-locked c r r' prev config l h = ground arith

-- A run that is cancelled while it is queued has left `queued` with its configuration unlocked: the
-- object still accepts a new one, and refuses it only once it has been stored and loaded again.
pub cancel-config_unlocked :
    (r r' : Run) (prev : RunStatus) (now now' : ℕ) (config : Dict)
    → r.run_status ≡ queued
    → r.config_locked ≡ false
    → Run.cancel now now' r ≡ ok (prev, r')
    → (r'.run_status ≡ cancelled)
      × (Run.update_config config r' ≡ ok (record r' { run_config = config }))
      × (Run.update_config config (Run.reload r') ≡ err immutable_field)
unfolding Run.cancel Run.update_config Run.reload
cancel-config_unlocked r r' prev now now' config q l h = ground arith
