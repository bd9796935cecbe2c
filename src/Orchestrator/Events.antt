-- ===== src/Orchestrator/Events.antt =====
-- apps/orchestrator/src/application/events.py and approval_events.py: one constructor of `Payload`
-- for each event type, with what its payload holds beside the identifiers, and one function for each
-- event factory. A factory draws the event's identifier and reads the clock.
use keviq_core.Prelude.{ℕ, String, Option, none, some, is_empty, if◌then◌else◌}
use keviq_core.Orchestrator.Task.{TaskType, TaskStatus}
use keviq_core.Orchestrator.Run.{RunStatus, TriggerType}
use keviq_core.Orchestrator.Step.{StepType, StepStatus}
use keviq_core.Orchestrator.Approval.{ApprovalDecision, ApprovalTargetType}

-- `recovery_action` of a `RecoveryResult`
pub data RecoveryAction : Type 0 where
  skipped_already_terminal skipped_no_longer_stuck force_completed : RecoveryAction
  marked_failed marked_completed reconciliation_failed : RecoveryAction

pub data Payload : Type 0 where
  task_submitted : ℕ → String → TaskType → Payload
  task_started task_completed run_started run_completing : Payload
  run_cancelled run_timed_out step_completed step_cancelled : Payload
  task_cancelled run_completed : Option ℕ → Payload
  task_failed run_failed : Option String → Payload
  task_retried : ℕ → Payload
  task_recovered : TaskStatus → RecoveryAction → Payload
  run_queued : TriggerType → Payload
  run_recovered : RunStatus → RecoveryAction → Payload
  step_started : StepType → ℕ → Payload
  step_failed : Option String → Option String → Payload
  step_recovered : StepStatus → RecoveryAction → Payload
  approval_requested :
      (approval_id : ℕ)
      → ApprovalTargetType
      → (target_id : ℕ) (requested_by : String) → (prompt : Option String) → Payload
  approval_decided :
      (approval_id : ℕ)
      → ApprovalDecision
      → (decided_by_id : ℕ) → ApprovalTargetType
      → (target_id : ℕ) (comment : Option String) → Payload

pub record OutboxEvent : Type 0 where
  pub payload : Payload
  pub workspace_id : ℕ
  pub correlation_id : ℕ
  pub task_id : Option ℕ
  pub run_id : Option ℕ
  pub step_id : Option ℕ
  pub causation_id : Option ℕ
  pub event_id : ℕ
  pub occurred_at : ℕ

-- An event waits for its identifier and its time.
abbrev pub Draft : Type 0
Draft = (event_id occurred_at : ℕ) → OutboxEvent

-- `if text: payload[…] = text`: an empty text is left out.
abbrev non_empty : Option String → Option String
non_empty none = none
non_empty (some s) = if is_empty s then none else some s

-- The identifiers of a task's, a run's and a step's event.
abbrev task_draft : Payload → (task_id workspace_id correlation_id : ℕ) → Option ℕ → Draft
task_draft payload task_id workspace_id correlation_id causation_id event_id occurred_at = record {
  payload = payload;
  workspace_id = workspace_id;
  correlation_id = correlation_id;
  task_id = some task_id;
  run_id = none;
  step_id = none;
  causation_id = causation_id;
  event_id = event_id;
  occurred_at = occurred_at;
}

abbrev run_draft : Payload → (run_id task_id workspace_id correlation_id : ℕ) → Option ℕ → Draft
run_draft payload run_id task_id workspace_id correlation_id causation_id event_id occurred_at =
    record (task_draft payload task_id workspace_id correlation_id causation_id event_id
      occurred_at) { run_id = some run_id }

abbrev step_draft :
    Payload → (step_id run_id task_id workspace_id correlation_id : ℕ) → Option ℕ → Draft
step_draft payload step_id run_id task_id workspace_id correlation_id causation_id event_id
      occurred_at =
    record (run_draft payload run_id task_id workspace_id correlation_id causation_id event_id
      occurred_at) { step_id = some step_id }

abbrev pub task_submitted_event :
    (task_id workspace_id correlation_id : ℕ) (created_by_id : ℕ) (title : String)
    (task_type : TaskType) (causation_id : Option ℕ)
    → Draft
task_submitted_event task_id workspace_id correlation_id created_by_id title task_type
      causation_id =
    task_draft (task_submitted created_by_id title task_type) task_id workspace_id correlation_id
      causation_id

abbrev pub task_started_event :
    (task_id workspace_id correlation_id : ℕ) (causation_id : Option ℕ) → Draft
task_started_event task_id workspace_id correlation_id causation_id =
    task_draft task_started task_id workspace_id correlation_id causation_id

abbrev pub task_completed_event :
    (task_id workspace_id correlation_id : ℕ) (causation_id : Option ℕ) → Draft
task_completed_event task_id workspace_id correlation_id causation_id =
    task_draft task_completed task_id workspace_id correlation_id causation_id

abbrev pub task_cancelled_event :
    (task_id workspace_id correlation_id : ℕ) (cancelled_by_id : Option ℕ) (causation_id : Option ℕ)
    → Draft
task_cancelled_event task_id workspace_id correlation_id cancelled_by_id causation_id =
    task_draft (task_cancelled cancelled_by_id) task_id workspace_id correlation_id causation_id

abbrev pub task_failed_event :
    (task_id workspace_id correlation_id : ℕ) (error_summary : Option String)
    (causation_id : Option ℕ)
    → Draft
task_failed_event task_id workspace_id correlation_id error_summary causation_id =
    task_draft (task_failed (non_empty error_summary)) task_id workspace_id correlation_id
      causation_id

abbrev pub task_retried_event :
    (task_id workspace_id correlation_id : ℕ) (retried_by_id : ℕ) → Draft
task_retried_event task_id workspace_id correlation_id retried_by_id =
    task_draft (task_retried retried_by_id) task_id workspace_id correlation_id none

abbrev pub task_recovered_event :
    (task_id workspace_id correlation_id : ℕ) (previous_status : TaskStatus)
    (action : RecoveryAction)
    → Draft
task_recovered_event task_id workspace_id correlation_id previous_status action =
    task_draft (task_recovered previous_status action) task_id workspace_id correlation_id none

abbrev pub run_queued_event :
    (run_id task_id workspace_id correlation_id : ℕ) (trigger_type : TriggerType)
    (causation_id : Option ℕ)
    → Draft
run_queued_event run_id task_id workspace_id correlation_id trigger_type causation_id =
    run_draft (run_queued trigger_type) run_id task_id workspace_id correlation_id causation_id

abbrev pub run_started_event :
    (run_id task_id workspace_id correlation_id : ℕ) (causation_id : Option ℕ) → Draft
run_started_event run_id task_id workspace_id correlation_id causation_id =
    run_draft run_started run_id task_id workspace_id correlation_id causation_id

abbrev pub run_completing_event :
    (run_id task_id workspace_id correlation_id : ℕ) (causation_id : Option ℕ) → Draft
run_completing_event run_id task_id workspace_id correlation_id causation_id =
    run_draft run_completing run_id task_id workspace_id correlation_id causation_id

abbrev pub run_completed_event :
    (run_id task_id workspace_id correlation_id : ℕ) (duration_ms : Option ℕ)
    (causation_id : Option ℕ)
    → Draft
run_completed_event run_id task_id workspace_id correlation_id duration_ms causation_id =
    run_draft (run_completed duration_ms) run_id task_id workspace_id correlation_id causation_id

abbrev pub run_cancelled_event :
    (run_id task_id workspace_id correlation_id : ℕ) (causation_id : Option ℕ) → Draft
run_cancelled_event run_id task_id workspace_id correlation_id causation_id =
    run_draft run_cancelled run_id task_id workspace_id correlation_id causation_id

abbrev pub run_failed_event :
    (run_id task_id workspace_id correlation_id : ℕ) (error_summary : Option String)
    (causation_id : Option ℕ)
    → Draft
run_failed_event run_id task_id workspace_id correlation_id error_summary causation_id =
    run_draft (run_failed (non_empty error_summary)) run_id task_id workspace_id correlation_id
      causation_id

abbrev pub run_timed_out_event :
    (run_id task_id workspace_id correlation_id : ℕ) (causation_id : Option ℕ) → Draft
run_timed_out_event run_id task_id workspace_id correlation_id causation_id =
    run_draft run_timed_out run_id task_id workspace_id correlation_id causation_id

abbrev pub run_recovered_event :
    (run_id task_id workspace_id correlation_id : ℕ) (previous_status : RunStatus)
    (action : RecoveryAction)
    → Draft
run_recovered_event run_id task_id workspace_id correlation_id previous_status action =
    run_draft (run_recovered previous_status action) run_id task_id workspace_id correlation_id none

abbrev pub step_started_event :
    (step_id run_id task_id workspace_id correlation_id : ℕ) (step_type : StepType) (sequence : ℕ)
    (causation_id : Option ℕ)
    → Draft
step_started_event step_id run_id task_id workspace_id correlation_id step_type sequence
      causation_id =
    step_draft (step_started step_type sequence) step_id run_id task_id workspace_id correlation_id
      causation_id

abbrev pub step_completed_event :
    (step_id run_id task_id workspace_id correlation_id : ℕ) (causation_id : Option ℕ) → Draft
step_completed_event step_id run_id task_id workspace_id correlation_id causation_id =
    step_draft step_completed step_id run_id task_id workspace_id correlation_id causation_id

abbrev pub step_failed_event :
    (step_id run_id task_id workspace_id correlation_id : ℕ)
    (error_code error_message : Option String) (causation_id : Option ℕ)
    → Draft
step_failed_event step_id run_id task_id workspace_id correlation_id error_code error_message
      causation_id =
    step_draft (step_failed (non_empty error_code) (non_empty error_message)) step_id run_id task_id
      workspace_id correlation_id causation_id

abbrev pub step_cancelled_event :
    (step_id run_id task_id workspace_id correlation_id : ℕ) (causation_id : Option ℕ) → Draft
step_cancelled_event step_id run_id task_id workspace_id correlation_id causation_id =
    step_draft step_cancelled step_id run_id task_id workspace_id correlation_id causation_id

abbrev pub step_recovered_event :
    (step_id run_id task_id workspace_id correlation_id : ℕ) (previous_status : StepStatus)
    (action : RecoveryAction)
    → Draft
step_recovered_event step_id run_id task_id workspace_id correlation_id previous_status action =
    step_draft (step_recovered previous_status action) step_id run_id task_id workspace_id
      correlation_id none

abbrev pub approval_requested_event :
    (approval_id workspace_id : ℕ)
    → ApprovalTargetType
    → (target_id : ℕ) (requested_by : String) (prompt : Option String) (correlation_id : ℕ) → Draft
approval_requested_event approval_id workspace_id target_type target_id requested_by prompt
      correlation_id event_id occurred_at =
    record {
      payload = approval_requested approval_id target_type target_id requested_by prompt;
      workspace_id = workspace_id;
      correlation_id = correlation_id;
      task_id = none;
      run_id = none;
      step_id = none;
      causation_id = none;
      event_id = event_id;
      occurred_at = occurred_at;
    }

abbrev pub approval_decided_event :
    (approval_id workspace_id : ℕ)
    → ApprovalDecision
    → (decided_by_id : ℕ) → ApprovalTargetType
    → (target_id : ℕ) (comment : Option String) (correlation_id : ℕ) → Draft
approval_decided_event approval_id workspace_id decision decided_by_id target_type target_id comment
      correlation_id event_id occurred_at =
    record {
      payload = approval_decided approval_id decision decided_by_id target_type target_id comment;
      workspace_id = workspace_id;
      correlation_id = correlation_id;
      task_id = none;
      run_id = none;
      step_id = none;
      causation_id = none;
      event_id = event_id;
      occurred_at = occurred_at;
    }
