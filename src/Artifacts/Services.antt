-- ===== src/Artifacts/Services.antt =====
-- apps/artifact-service/src/application/services.py. A service runs in one transaction; its result is
-- what it returns.
pub mod Steps
pub mod Handles
pub mod Complete
pub mod Finalizes
pub mod Recorded
pub mod Register
use Prim.Native.String.{◌++◌}
use keviq_core.Prelude.{
  ℕ, ◌==◌, String, Bool, true, false, Option, none, some, List, [], length, str_eq, is_blank,
  is_some, or_else, if◌then◌else◌, Codes, ℤ,
}
use keviq_core.Errors.{
  artifact_not_found, domain_validation, value_error, runtime_error, lineage_cycle,
  lineage_self_loop, Result, ok, err, raise_if, or_raise,
}
use keviq_core.Artifacts.Artifact
use keviq_core.Artifacts.Artifact.{
  Artifact, ArtifactStatus, ArtifactType, RootType, ArtifactArgs, file, code_patch, report, dataset,
  log, structured_data, model_output, generated, upload, repo_snapshot, imported, ready, validate,
}
use keviq_core.Artifacts.Provenance
use keviq_core.Artifacts.Provenance.{Provenance}
use keviq_core.Artifacts.Edge
use keviq_core.Artifacts.Edge.{Edge, parse_edge_type}
use keviq_core.Artifacts.Lineage.{Search, answered, out_of_fuel, detect_cycle}
use keviq_core.Artifacts.Events
use keviq_core.Artifacts.Store.{
  Tx, ◌>>=◌, ◌>>◌, now, uuid4, commit, ask, pure, raise, lift, with_uow, StorageCall, save_artifact,
  get_artifact, save_provenance, get_provenance, save_edge, list_edges_by_workspace, write,
}

-- `ArtifactType(value)`
unfoldable pub parse_artifact_type : String → Result ArtifactType
parse_artifact_type s =
    if str_eq s "file"
    then ok file
    else if str_eq s "code_patch"
    then ok code_patch
    else if str_eq s "report"
    then ok report
    else if str_eq s "dataset"
    then ok dataset
    else if str_eq s "log"
    then ok log
    else if str_eq s "structured_data"
    then ok structured_data
    else if str_eq s "model_output"
    then ok model_output
    else err value_error

-- `RootType(value)`
unfoldable pub parse_root_type : String → Result RootType
parse_root_type s =
    if str_eq s "generated"
    then ok generated
    else if str_eq s "upload"
    then ok upload
    else if str_eq s "repo_snapshot"
    then ok repo_snapshot
    else if str_eq s "imported"
    then ok imported
    else err value_error

pub record RegisterArtifact : Type 0 where
  pub workspace_id : ℕ
  pub task_id : ℕ
  pub run_id : ℕ
  pub name : String
  pub artifact_type : String
  pub root_type : String
  pub step_id : Option ℕ
  pub agent_invocation_id : Option ℕ
  pub mime_type : Option String
  pub model_provider : Option String
  pub model_name_concrete : Option String
  pub model_version_concrete : Option String
  pub model_temperature : Option String
  pub model_max_tokens : Option ℕ
  pub system_prompt_hash : Option String
  pub run_config_hash : Option String
  pub tool_name : Option String
  pub tool_version : Option String
  pub tool_config_hash : Option String
  pub input_snapshot : List (List (String × String))
  pub lineage_chain : List String
  pub correlation_id : Option ℕ

-- The arguments of `Artifact(…)` in `register_artifact`.
abbrev register_args : RegisterArtifact → ArtifactType → RootType → ArtifactArgs
register_args c artifact_type root_type = record {
  workspace_id = c.workspace_id;
  task_id = c.task_id;
  run_id = c.run_id;
  name = c.name;
  artifact_type = artifact_type;
  root_type = root_type;
  step_id = c.step_id;
  agent_invocation_id = c.agent_invocation_id;
  mime_type = c.mime_type;
}

-- The arguments of `ArtifactProvenance(…)` in `register_artifact`.
abbrev register_provenance : RegisterArtifact → (artifact_id correlation_id id : ℕ) → Provenance
register_provenance c artifact_id correlation_id id = record {
  artifact_id = artifact_id;
  input_snapshot = c.input_snapshot;
  run_config_hash = c.run_config_hash;
  tool_name = c.tool_name;
  tool_version = c.tool_version;
  tool_config_hash = c.tool_config_hash;
  model_provider = c.model_provider;
  model_name_concrete = c.model_name_concrete;
  model_version_concrete = c.model_version_concrete;
  model_temperature = c.model_temperature;
  model_max_tokens = c.model_max_tokens;
  system_prompt_hash = c.system_prompt_hash;
  lineage_chain = c.lineage_chain;
  correlation_id = some correlation_id;
  id = id;
}

-- `correlation_id or uuid4()`
unfoldable pub correlate : Option ℕ → Tx ℕ
correlate none = uuid4
correlate (some id) = pure id

-- `Artifact(…)` of a new artifact: the name is checked first.
unfoldable pub create : ArtifactArgs → Tx Artifact
create args = do
  lift (raise_if (is_blank args.name) domain_validation)
  created ← now
  fresh ← uuid4
  pure (Artifact.new fresh created args)

unfoldable pub register_artifact : RegisterArtifact → Tx Artifact
register_artifact cmd = do
  correlation_id ← correlate cmd.correlation_id
  with_uow do
    artifact_type ← lift (parse_artifact_type cmd.artifact_type)
    root_type ← lift (parse_root_type cmd.root_type)
    artifact ← create (register_args cmd artifact_type root_type)
    id ← uuid4
    provenance ← lift (Provenance.post_init (register_provenance cmd artifact.id correlation_id id))
    save_artifact artifact
    save_provenance provenance
    write (
        Events.artifact_registered_event artifact.id artifact.workspace_id artifact.run_id
          correlation_id artifact.artifact_type artifact.root_type artifact.name)
    commit
    pure artifact

-- `uow.artifacts.get_by_id(…)` with the error for a missing artifact.
unfoldable pub require_artifact : ℕ → Tx Artifact
require_artifact artifact_id = do
  found ← get_artifact artifact_id
  lift (or_raise found artifact_not_found)

unfoldable pub begin_writing :
    (artifact_id : ℕ) (storage_ref : String) (correlation_id : Option ℕ) → Tx Artifact
begin_writing artifact_id storage_ref correlation_id = do
  cid ← correlate correlation_id
  with_uow do
    artifact ← require_artifact artifact_id
    updated ← now
    (_, moved) ← lift (Artifact.begin_writing storage_ref updated artifact)
    save_artifact moved
    write (Events.artifact_writing_event moved.id moved.workspace_id moved.run_id cid storage_ref)
    commit
    pure moved

abbrev pub is_ready : ArtifactStatus → Bool
is_ready ready = true
is_ready _ = false

-- What `artifact_ready_event` announces as the checksum.
abbrev pub checksum_of : Option Codes → Codes
checksum_of none = []
checksum_of (some checksum) = checksum

unfoldable pub finalize_artifact :
    (artifact_id : ℕ)
    → (checksum : Codes) (size_bytes : ℤ) (correlation_id : Option ℕ) → Tx Artifact
finalize_artifact artifact_id checksum size_bytes correlation_id = do
  cid ← correlate correlation_id
  with_uow do
    artifact ← require_artifact artifact_id
    lift (raise_if (is_ready artifact.artifact_status) domain_validation)
    found ← get_provenance artifact_id
    provenance ← lift (or_raise found domain_validation)
    updated ← now
    finished ← now
    (_, moved) ← lift (Artifact.finalize checksum size_bytes provenance updated finished artifact)
    save_artifact moved
    write (
        Events.artifact_ready_event moved.id moved.workspace_id cid (checksum_of moved.checksum)
          size_bytes)
    commit
    pure moved

unfoldable pub fail_artifact :
    (artifact_id : ℕ)
    → (failure_reason : Option String) (partial_data : Bool) (correlation_id : Option ℕ)
    → Tx Artifact
fail_artifact artifact_id failure_reason partial_data correlation_id = do
  cid ← correlate correlation_id
  with_uow do
    artifact ← require_artifact artifact_id
    updated ← now
    finished ← now
    (_, moved) ← lift (Artifact.fail failure_reason partial_data updated finished artifact)
    save_artifact moved
    write (Events.artifact_failed_event moved.id moved.workspace_id moved.run_id cid failure_reason)
    commit
    pure moved

-- What the search for a cycle comes to. It never runs out of its bound.
unfoldable pub refuse_cycle : Search → Result (Unit {0})
refuse_cycle (answered cyclic) = raise_if cyclic lineage_cycle
refuse_cycle out_of_fuel = err runtime_error

pub record RecordEdge : Type 0 where
  pub child_artifact_id : ℕ
  pub parent_artifact_id : ℕ
  pub edge_type : String
  pub run_id : Option ℕ
  pub step_id : Option ℕ
  pub workspace_id : ℕ
  pub correlation_id : Option ℕ

unfoldable pub record_lineage_edge : RecordEdge → Tx Edge
record_lineage_edge c = do
  cid ← correlate c.correlation_id
  with_uow do
    require_artifact c.child_artifact_id
    require_artifact c.parent_artifact_id
    lift (raise_if (c.child_artifact_id == c.parent_artifact_id) lineage_self_loop)
    existing_edges ← list_edges_by_workspace c.workspace_id
    lift (refuse_cycle (detect_cycle c.child_artifact_id c.parent_artifact_id existing_edges))
    edge_type ← lift (parse_edge_type c.edge_type)
    id ← uuid4
    created_at ← now
    edge ← lift (
        Edge.post_init record {
          id = id;
          child_artifact_id = c.child_artifact_id;
          parent_artifact_id = c.parent_artifact_id;
          edge_type = edge_type;
          run_id = c.run_id;
          step_id = c.step_id;
          created_at = created_at;
        })
    save_edge edge
    write (
        Events.artifact_lineage_recorded_event edge.id c.child_artifact_id c.parent_artifact_id
          edge.edge_type c.workspace_id c.run_id cid)
    commit
    pure edge
