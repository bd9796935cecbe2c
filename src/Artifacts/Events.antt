-- ===== src/Artifacts/Events.antt =====
-- apps/artifact-service/src/application/events.py: one constructor of `Payload` for each event type, and
-- one function for each event factory. A factory draws the event's identifier and reads the clock.
use keviq_core.Prelude.{ℕ, String, Option, none, some, is_empty, if◌then◌else◌, Codes, ℤ}
use keviq_core.Artifacts.Artifact.{ArtifactType, RootType}
use keviq_core.Artifacts.Edge.{EdgeType}

pub data Payload : Type 0 where
  artifact_registered :
      (artifact_id run_id : ℕ) → ArtifactType → RootType → (name : String) → Payload
  artifact_writing : (artifact_id : ℕ) (storage_ref : String) → Payload
  artifact_ready : (artifact_id : ℕ) → (checksum : Codes) (size_bytes : ℤ) → Payload
  artifact_failed : (artifact_id : ℕ) (failure_reason : Option String) → Payload
  artifact_lineage_recorded :
      (edge_id child_artifact_id parent_artifact_id : ℕ) → EdgeType → Payload

pub record OutboxEvent : Type 0 where
  pub payload : Payload
  pub workspace_id : ℕ
  pub correlation_id : ℕ
  pub artifact_id : Option ℕ
  pub run_id : Option ℕ
  pub event_id : ℕ
  pub occurred_at : ℕ

-- An event waits for its identifier and its time.
abbrev pub Draft : Type 0
Draft = (event_id occurred_at : ℕ) → OutboxEvent

abbrev event_draft : Payload → (workspace_id correlation_id artifact_id : ℕ) → Option ℕ → Draft
event_draft payload workspace_id correlation_id artifact_id run_id event_id occurred_at = record {
  payload = payload;
  workspace_id = workspace_id;
  correlation_id = correlation_id;
  artifact_id = some artifact_id;
  run_id = run_id;
  event_id = event_id;
  occurred_at = occurred_at;
}

abbrev pub artifact_registered_event :
    (artifact_id workspace_id run_id correlation_id : ℕ)
    → ArtifactType
    → RootType
    → (name : String) → Draft
artifact_registered_event artifact_id workspace_id run_id correlation_id artifact_type root_type
      name =
    event_draft (artifact_registered artifact_id run_id artifact_type root_type name) workspace_id
      correlation_id artifact_id (some run_id)

abbrev pub artifact_writing_event :
    (artifact_id workspace_id run_id correlation_id : ℕ) (storage_ref : String) → Draft
artifact_writing_event artifact_id workspace_id run_id correlation_id storage_ref =
    event_draft (artifact_writing artifact_id storage_ref) workspace_id correlation_id artifact_id
      (some run_id)

abbrev pub artifact_ready_event :
    (artifact_id workspace_id correlation_id : ℕ) → (checksum : Codes) (size_bytes : ℤ) → Draft
artifact_ready_event artifact_id workspace_id correlation_id checksum size_bytes =
    event_draft (artifact_ready artifact_id checksum size_bytes) workspace_id correlation_id
      artifact_id none

-- `if failure_reason`: an empty reason is left out.
abbrev reason : Option String → Option String
reason none = none
reason (some s) = if is_empty s then none else some s

abbrev pub artifact_failed_event :
    (artifact_id workspace_id run_id correlation_id : ℕ) (failure_reason : Option String) → Draft
artifact_failed_event artifact_id workspace_id run_id correlation_id failure_reason =
    event_draft (artifact_failed artifact_id (reason failure_reason)) workspace_id correlation_id
      artifact_id (some run_id)

abbrev pub artifact_lineage_recorded_event :
    (edge_id child_artifact_id parent_artifact_id : ℕ)
    → EdgeType
    → (workspace_id : ℕ) → Option ℕ
    → (correlation_id : ℕ) → Draft
artifact_lineage_recorded_event edge_id child_artifact_id parent_artifact_id edge_type workspace_id
      run_id correlation_id =
    event_draft (artifact_lineage_recorded edge_id child_artifact_id parent_artifact_id edge_type)
      workspace_id correlation_id child_artifact_id run_id
