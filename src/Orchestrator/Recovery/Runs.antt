-- ===== src/Orchestrator/Recovery/Runs.antt =====
-- What the sweep makes of one stuck run and of its steps.
use keviq_core.Prelude.{ℕ, ◌≡◌, false, some}
use keviq_core.Prelude.Tables
use keviq_core.Errors.{Result, ok, err}
use keviq_core.Orchestrator.Run
use keviq_core.Orchestrator.Run.{Run, RunStatus, completed, failed, completing}
use keviq_core.Orchestrator.Step
use keviq_core.Orchestrator.Step.{Step, StepStatus}
use keviq_core.Orchestrator.Events.{RecoveryAction, force_completed, marked_failed}
use keviq_core.Orchestrator.Session.{Session}
use keviq_core.Orchestrator.Repositories.{run_at, step_at}
use keviq_core.Orchestrator.Recovery.{RecoveryResult, done}

-- A stuck run ends as completed if it was completing, and as failed otherwise.
abbrev pub swept_status : RunStatus → RunStatus
swept_status completing = completed
swept_status _ = failed

abbrev pub swept_action : RunStatus → RecoveryAction
swept_action completing = force_completed
swept_action _ = marked_failed

abbrev run_of : Result (Run × RecoveryAction) → Run → Run
run_of (ok (r', _)) r = r'
run_of (err _) r = r

-- What the recovery of a run returns and leaves.
abbrev pub Recovers : (run_id : ℕ) → RunStatus → Run → RecoveryResult → Session → Type 0
Recovers run_id previous r result s' =
    (result ≡ done "run" run_id (Run.value previous) (swept_action r.run_status))
    × ((r' : Run) × (run_at s'.committed run_id ≡ some r')
        × (r'.run_status ≡ swept_status r.run_status))
    × ((k : ℕ) (q : Step)
        → step_at s'.committed k ≡ some q
        → q.run_id ≡ run_id
        → Step.is_active q.step_status ≡ false)
