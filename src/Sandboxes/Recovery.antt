-- ===== src/Sandboxes/Recovery.antt =====
-- apps/execution-service/src/application/recovery_service.py. What the backend answers, and the text of an
-- exception, are parameters. Times are in microseconds, and `now` is later than the thresholds.
pub mod Sweeps
use Prim.Native.String.{◌++◌ as concat}
use keviq_core.Prelude.{
  ℕ, ◌-◌, ◌*◌, String, Bool, true, false, not, Option, none, some, List, [], ◌∷◌, ltb,
  if◌then◌else◌,
}
use keviq_core.Errors.{Error, Result, ok, err}
use keviq_core.Sandboxes.Sandbox
use keviq_core.Sandboxes.Sandbox.{
  Sandbox, SandboxStatus, ErrorDetail, provisioning, ready, executing, idle, terminating,
  terminated, failed, sandbox_terminal, status_value,
}
use keviq_core.Sandboxes.Store.{
  recovered, Tx, terminates, can_be_stuck, list_stuck, save, get_by_id, write, ◌>>=◌, ◌>>◌, now,
  uuid4, commit, ask, pure, lift, try_except, with_uow,
}

-- What the sweep says of a sandbox.
pub record Action : Type 0 where
  pub sandbox_id : ℕ
  pub previous_status : String
  pub recovery_action : String
  pub success : Bool
  pub error : Option String

abbrev action : ℕ → SandboxStatus → String → Action
action sandbox_id previous recovery_action = record {
  sandbox_id = sandbox_id;
  previous_status = status_value previous;
  recovery_action = recovery_action;
  success = true;
  error = none;
}

-- `error_detail` of a sandbox that was stuck.
abbrev pub stuck_detail : SandboxStatus → (backend_cleaned : Bool) → ErrorDetail
stuck_detail previous backend_cleaned = record {
  code = "RECOVERY_SWEEP";
  message = concat (concat "Sandbox stuck in " (status_value previous)) ", recovered by sweep";
  backend_cleaned = some backend_cleaned;
}

-- `timedelta(minutes=…)`
abbrev pub minutes : ℕ → ℕ
minutes n = n * 60000000

abbrev pub shorter : ℕ → ℕ → ℕ
shorter m n = if ltb n m then n else m

-- The time that a sandbox of that status may stay unchanged.
abbrev pub threshold : (provisioning_timeout executing_timeout : ℕ) → SandboxStatus → ℕ
threshold provisioning_timeout executing_timeout provisioning = minutes provisioning_timeout
threshold provisioning_timeout executing_timeout _ = minutes executing_timeout

module _ (show_error : Error → String) (is_alive : ℕ → Result Bool)
    (backend_terminate : ℕ → Result (Unit {0})) where
  -- The cleanup comes to `backend_cleaned`.
  unfoldable pub stop_alive : ℕ → Bool → Tx Bool
  unfolding ask
  stop_alive sandbox_id true = do
    ask (terminates sandbox_id)
    lift (backend_terminate sandbox_id)
    pure true
  stop_alive sandbox_id false = pure true

  unfoldable pub clean : ℕ → Tx Bool
  unfolding stop_alive
  clean sandbox_id =
      try_except (do alive ← lift (is_alive sandbox_id); stop_alive sandbox_id alive)
        (λ _. pure false)

  unfoldable pub mark :
      (sandbox_id workspace_id correlation_id : ℕ)
      → SandboxStatus
      → (backend_cleaned : Bool) → Sandbox
      → Tx Action
  unfolding save write commit Sandbox.mark_failed
  mark sandbox_id workspace_id correlation_id previous backend_cleaned b = do
    updated ← now
    (_, b') ← lift (Sandbox.mark_failed (some (stuck_detail previous backend_cleaned)) updated b)
    save b'
    write (recovered (status_value previous) "marked_failed") sandbox_id workspace_id correlation_id
    commit
    pure (action sandbox_id previous "marked_failed")

  -- The sandbox is read again, and may have recovered in the meantime.
  unfoldable pub reconcile :
      (sandbox_id workspace_id correlation_id : ℕ)
      → SandboxStatus
      → (backend_cleaned : Bool) → Option Sandbox
      → Tx Action
  unfolding mark
  reconcile sandbox_id workspace_id correlation_id previous backend_cleaned none =
      pure (action sandbox_id previous "skipped_already_terminal")
  reconcile sandbox_id workspace_id correlation_id previous backend_cleaned (some b) =
      if sandbox_terminal b.sandbox_status
      then pure (action sandbox_id previous "skipped_already_terminal")
      else if not (can_be_stuck b.sandbox_status)
      then pure (action sandbox_id previous "skipped_no_longer_stuck")
      else mark sandbox_id workspace_id correlation_id previous backend_cleaned b

  unfoldable pub recover_single_sandbox : (sandbox_id workspace_id : ℕ) → SandboxStatus → Tx Action
  unfolding clean with_uow get_by_id reconcile
  recover_single_sandbox sandbox_id workspace_id previous = do
    correlation_id ← uuid4
    backend_cleaned ← clean sandbox_id
    try_except
        (with_uow do
          found ← get_by_id sandbox_id
          reconcile sandbox_id workspace_id correlation_id previous backend_cleaned found)
        (λ e. pure record {
          sandbox_id = sandbox_id;
          previous_status = status_value previous;
          recovery_action = "reconciliation_failed";
          success = false;
          error = some (show_error e);
        })

  unfoldable pub recover_all :
      (provisioning_timeout executing_timeout start : ℕ) → List Sandbox → Tx (List Action)
  recover_all provisioning_timeout executing_timeout start [] = pure []
  recover_all provisioning_timeout executing_timeout start (b ∷ rest) =
      let after = recover_all provisioning_timeout executing_timeout start rest in
      if ltb (start - threshold provisioning_timeout executing_timeout b.sandbox_status)
        b.updated_at
      then after
      else (do
        a ← recover_single_sandbox b.id b.workspace_id b.sandbox_status
        more ← after
        pure (a ∷ more))

  unfoldable pub recover_stuck_sandboxes :
      (provisioning_timeout executing_timeout : ℕ) → Tx (List Action)
  unfolding with_uow list_stuck recover_all
  recover_stuck_sandboxes provisioning_timeout executing_timeout = do
    start ← now
    stuck ← with_uow (list_stuck (start - minutes (shorter provisioning_timeout executing_timeout)))
    recover_all provisioning_timeout executing_timeout start stuck
