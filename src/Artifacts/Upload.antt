-- ===== src/Artifacts/Upload.antt =====
-- apps/artifact-service/src/application/services.py: `upload_artifact`. The hash of a content, the text
-- of an identifier, and whether the storage takes a write are parameters.
pub mod Uploads
use Prim.Native.String.{◌++◌}
use keviq_core.Prelude.{ℕ, String, Option, none, some, List, [], length, Codes, ℤ}
use keviq_core.Errors.{Result}
use keviq_core.Artifacts.Artifact
use keviq_core.Artifacts.Artifact.{Artifact, ArtifactType, ArtifactArgs, RootType}
use keviq_core.Artifacts.Provenance
use keviq_core.Artifacts.Provenance.{Provenance}
use keviq_core.Artifacts.Events
use keviq_core.Artifacts.Store.{
  Tx, ◌>>=◌, ◌>>◌, now, uuid4, commit, ask, pure, lift, with_uow, StorageCall, save_artifact,
  save_provenance, write,
}
use keviq_core.Artifacts.Services.{parse_artifact_type, correlate, create}

pub record UploadArtifact : Type 0 where
  pub workspace_id : ℕ
  pub name : String
  pub artifact_type : String
  pub mime_type : Option String
  pub content : List ℕ
  pub correlation_id : Option ℕ

-- The arguments of `Artifact(…)`: the workspace stands for the task and for the run.
abbrev pub upload_args : UploadArtifact → ArtifactType → ArtifactArgs
upload_args c artifact_type = record {
  workspace_id = c.workspace_id;
  task_id = c.workspace_id;
  run_id = c.workspace_id;
  name = c.name;
  artifact_type = artifact_type;
  root_type = RootType.upload;
  step_id = none;
  agent_invocation_id = none;
  mime_type = c.mime_type;
}

-- `ArtifactProvenance(artifact_id=…, correlation_id=…)`
abbrev pub upload_provenance : (artifact_id correlation_id id : ℕ) → Provenance
upload_provenance artifact_id correlation_id id = record {
  artifact_id = artifact_id;
  input_snapshot = [];
  run_config_hash = none;
  tool_name = none;
  tool_version = none;
  tool_config_hash = none;
  model_provider = none;
  model_name_concrete = none;
  model_version_concrete = none;
  model_temperature = none;
  model_max_tokens = none;
  system_prompt_hash = none;
  lineage_chain = [];
  correlation_id = some correlation_id;
  id = id;
}

module _ (sha256 : List ℕ → Codes) (show_uuid : ℕ → String)
    (write_content : String → List ℕ → Result (Unit {0})) where
  abbrev pub storage_key : (workspace_id artifact_id : ℕ) → String
  storage_key workspace_id artifact_id =
      "workspaces/"
      ++ show_uuid workspace_id
      ++ "/artifacts/"
      ++ show_uuid artifact_id
      ++ "/content"

  -- The transaction at the end: both rows and the three events.
  unfoldable pub persist :
      (cid : ℕ) (key : String)
      → (checksum : Codes) (size_bytes : ℤ) → Provenance
      → Artifact
      → Tx Artifact
  persist cid key checksum size_bytes provenance artifact = with_uow do
    save_artifact artifact
    save_provenance provenance
    write (
        Events.artifact_registered_event artifact.id artifact.workspace_id artifact.run_id cid
          artifact.artifact_type artifact.root_type artifact.name)
    write (Events.artifact_writing_event artifact.id artifact.workspace_id artifact.run_id cid key)
    write (Events.artifact_ready_event artifact.id artifact.workspace_id cid checksum size_bytes)
    commit
    pure artifact

  unfoldable pub upload_artifact : UploadArtifact → Tx Artifact
  upload_artifact c = do
    cid ← correlate c.correlation_id
    artifact_type ← lift (parse_artifact_type c.artifact_type)
    artifact ← create (upload_args c artifact_type)
    id ← uuid4
    provenance ← lift (Provenance.post_init (upload_provenance artifact.id cid id))
    let key = storage_key c.workspace_id artifact.id
    let checksum = sha256 c.content
    let size_bytes = ℤ.pos (length c.content)
    started ← now
    (_, begun) ← lift (Artifact.begin_writing key started artifact)
    lift (write_content key c.content)
    ask (StorageCall.written key c.content)
    updated ← now
    finished ← now
    (_, final) ← lift (Artifact.finalize checksum size_bytes provenance updated finished begun)
    persist cid key checksum size_bytes provenance final
