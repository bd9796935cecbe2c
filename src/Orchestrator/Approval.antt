-- ===== src/Orchestrator/Approval.antt =====
-- apps/orchestrator/src/domain/approval_request.py.
pub mod Lifecycle
use keviq_core.Prelude.{
  ℕ, String, Bool, true, false, Option, none, some, is_blank, ltb, if◌then◌else◌,
}
use keviq_core.Errors.{domain_validation, Result, ok, err, ◌>>=◌, ◌>>◌, raise_if}
use keviq_core.Machine.{Machine, fire}

pub data ApprovalDecision : Type 0 where
  pending approved rejected timed_out cancelled : ApprovalDecision

pub data ApprovalTargetType : Type 0 where
  task run step artifact tool_call : ApprovalTargetType

-- `_APPROVAL_TRANSITIONS`
abbrev pub approval_transitions : ApprovalDecision → ApprovalDecision → Bool
approval_transitions pending approved = true
approval_transitions pending rejected = true
approval_transitions pending timed_out = true
approval_transitions pending cancelled = true
approval_transitions _ _ = false

-- `_APPROVAL_TERMINAL`
abbrev pub approval_terminal : ApprovalDecision → Bool
approval_terminal pending = false
approval_terminal _ = true

abbrev pub approval_machine : Machine ApprovalDecision
approval_machine = record { is_terminal = approval_terminal; allowed = approval_transitions }

pub record Approval : Type 0 where
  pub id : ℕ
  pub workspace_id : ℕ
  pub target_type : ApprovalTargetType
  pub target_id : ℕ
  pub requested_by : String
  pub reviewer_id : Option ℕ
  pub prompt : Option String
  pub timeout_at : Option ℕ
  pub decision : ApprovalDecision
  pub decided_by_id : Option ℕ
  pub decided_at : Option ℕ
  pub decision_comment : Option String
  pub created_at : ℕ
  pub updated_at : ℕ

-- `ApprovalRequest(…)` with the arguments that `handle_create_approval` gives.
unfoldable pub new :
    (fresh now workspace_id : ℕ)
    → ApprovalTargetType
    → (target_id : ℕ) (requested_by : String) → (reviewer_id : Option ℕ) (prompt : Option String)
    → Result Approval
unfolding is_blank
new fresh now workspace_id target_type target_id requested_by reviewer_id prompt = do
  raise_if (is_blank requested_by) domain_validation
  ok (record {
    id = fresh;
    workspace_id = workspace_id;
    target_type = target_type;
    target_id = target_id;
    requested_by = requested_by;
    reviewer_id = reviewer_id;
    prompt = prompt;
    timeout_at = none;
    decision = pending;
    decided_by_id = none;
    decided_at = none;
    decision_comment = none;
    created_at = now;
    updated_at = now;
  })

-- `ApprovalRequest(…)` over a stored row.
unfoldable pub reload : Approval → Result Approval
unfolding is_blank
reload a = do raise_if (is_blank a.requested_by) domain_validation; ok a

-- `ApprovalRequest._transition`
unfoldable pub transition : ApprovalDecision → ℕ → Approval → Result (ApprovalDecision × Approval)
unfolding fire
transition target now a = do
  decision ← fire approval_machine a.decision target
  ok (a.decision, record a { decision = decision; updated_at = now })

unfoldable pub approve :
    (decided_by_id : ℕ)
    → Option String
    → (now now' : ℕ) → Approval
    → Result (ApprovalDecision × Approval)
unfolding transition
approve decided_by_id comment now now' a = do
  (prev, a') ← transition approved now a
  ok (
    prev,
    record a' {
      decided_by_id = some decided_by_id;
      decided_at = some now';
      decision_comment = comment;
    },
  )

unfoldable pub reject :
    (decided_by_id : ℕ)
    → Option String
    → (now now' : ℕ) → Approval
    → Result (ApprovalDecision × Approval)
unfolding transition
reject decided_by_id comment now now' a = do
  (prev, a') ← transition rejected now a
  ok (
    prev,
    record a' {
      decided_by_id = some decided_by_id;
      decided_at = some now';
      decision_comment = comment;
    },
  )

unfoldable pub time_out : ℕ → Approval → Result (ApprovalDecision × Approval)
unfolding transition
time_out = transition timed_out

unfoldable pub cancel : ℕ → Approval → Result (ApprovalDecision × Approval)
unfolding transition
cancel = transition cancelled

-- `is_expired`
unfoldable pub is_expired : (now : ℕ) → Approval → Bool
is_expired now a = elim a.timeout_at [ none ↦ false | some t ↦ ltb t now ]
