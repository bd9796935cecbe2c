-- ===== src/Sandboxes/Sandbox.antt =====
-- apps/execution-service/src/domain/sandbox.py. Times are in microseconds; each `now` is one reading of
-- the clock, in the order of the calls. The checks for missing identifiers, which no UUID fails, are left
-- out.
use keviq_core.Prelude.{ℕ, String, Bool, true, false, Option, some, List}
use keviq_core.Errors.{Result, ok, ◌>>=◌}
use keviq_core.Machine.{Machine, fire}

pub data SandboxType : Type 0 where
  container subprocess : SandboxType

pub data SandboxStatus : Type 0 where
  provisioning ready executing idle terminating terminated failed : SandboxStatus

pub data TerminationReason : Type 0 where
  completed timeout policy_violation error manual : TerminationReason

-- `_SANDBOX_TRANSITIONS`
abbrev pub sandbox_transitions : SandboxStatus → SandboxStatus → Bool
sandbox_transitions provisioning ready = true
sandbox_transitions provisioning failed = true
sandbox_transitions ready executing = true
sandbox_transitions ready terminating = true
sandbox_transitions executing idle = true
sandbox_transitions executing failed = true
sandbox_transitions executing terminating = true
sandbox_transitions idle executing = true
sandbox_transitions idle terminating = true
sandbox_transitions failed terminating = true
sandbox_transitions terminating terminated = true
sandbox_transitions _ _ = false

-- `_SANDBOX_TERMINAL`
abbrev pub sandbox_terminal : SandboxStatus → Bool
sandbox_terminal terminated = true
sandbox_terminal _ = false

abbrev pub sandbox_machine : Machine SandboxStatus
sandbox_machine = record { is_terminal = sandbox_terminal; allowed = sandbox_transitions }

-- A dict whose content the code does not look at; its values stand as their printed forms.
abbrev pub Fields : Type 0
Fields = List (String × String)

-- `error_detail`; only the recovery sweep gives `backend_cleaned`.
pub record ErrorDetail : Type 0 where
  pub code : String
  pub message : String
  pub backend_cleaned : Option Bool

pub record Sandbox : Type 0 where
  pub id : ℕ
  pub workspace_id : ℕ
  pub task_id : ℕ
  pub run_id : ℕ
  pub step_id : ℕ
  pub agent_invocation_id : ℕ
  pub sandbox_type : SandboxType
  pub sandbox_status : SandboxStatus
  pub policy_snapshot : Fields
  pub resource_limits : Fields
  pub network_egress_policy : Fields
  pub started_at : Option ℕ
  pub terminated_at : Option ℕ
  pub termination_reason : Option TerminationReason
  pub error_detail : Option ErrorDetail
  pub created_at : ℕ
  pub updated_at : ℕ

-- `Sandbox._transition`
unfoldable pub transition : SandboxStatus → ℕ → Sandbox → Result (SandboxStatus × Sandbox)
unfolding fire
transition target now b = do
  status ← fire sandbox_machine b.sandbox_status target
  ok (b.sandbox_status, record b { sandbox_status = status; updated_at = now })

unfoldable pub mark_ready : (now now' : ℕ) → Sandbox → Result (SandboxStatus × Sandbox)
unfolding transition
mark_ready now now' b = do
  (prev, b') ← transition ready now b
  ok (prev, record b' { started_at = some now' })

unfoldable pub mark_executing : ℕ → Sandbox → Result (SandboxStatus × Sandbox)
unfolding transition
mark_executing = transition executing

unfoldable pub mark_idle : ℕ → Sandbox → Result (SandboxStatus × Sandbox)
unfolding transition
mark_idle = transition idle

unfoldable pub mark_failed : Option ErrorDetail → ℕ → Sandbox → Result (SandboxStatus × Sandbox)
unfolding transition
mark_failed error_detail now b = do
  (prev, b') ← transition failed now b
  ok (prev, record b' { error_detail = error_detail })

unfoldable pub mark_terminating : TerminationReason → ℕ → Sandbox → Result (SandboxStatus × Sandbox)
unfolding transition
mark_terminating reason now b = do
  (prev, b') ← transition terminating now b
  ok (prev, record b' { termination_reason = some reason })

unfoldable pub mark_terminated : (now now' : ℕ) → Sandbox → Result (SandboxStatus × Sandbox)
unfolding transition
mark_terminated now now' b = do
  (prev, b') ← transition terminated now b
  ok (prev, record b' { terminated_at = some now' })

-- `Sandbox.is_active`
abbrev pub is_active : SandboxStatus → Bool
is_active terminated = false
is_active failed = false
is_active _ = true

-- `.value` of a status
abbrev pub status_value : SandboxStatus → String
status_value provisioning = "provisioning"
status_value ready = "ready"
status_value executing = "executing"
status_value idle = "idle"
status_value terminating = "terminating"
status_value terminated = "terminated"
status_value failed = "failed"
