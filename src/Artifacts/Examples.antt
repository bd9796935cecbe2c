-- ===== src/Artifacts/Examples.antt =====
-- The services and the lineage at concrete artifacts.
use keviq_core.Prelude.{
  ℕ, zero, suc, ◌+◌, ◌≡◌, ◌⊎◌, refl, String, true, false, none, some, List, [], ◌∷◌, ◌++◌, Codes, ℤ,
  arith,
}
use keviq_core.Prelude.Tables
use keviq_core.Errors.{Error, Result, ok, err}
use keviq_core.Transaction.Outcomes.{Outcome}
use keviq_core.Transaction.Returns.{Returns}
use keviq_core.Artifacts.Artifact
use keviq_core.Artifacts.Artifact.{
  Artifact, ArtifactStatus, pending, writing, ready, file, generated, dumped, mapping, finalize,
  is_upload, check_final, validate,
}
use keviq_core.Artifacts.Provenance
use keviq_core.Artifacts.Provenance.{Provenance}
use keviq_core.Artifacts.Edge.{Edge, derived_from}
use keviq_core.Artifacts.Lineage.{answered, detect_cycle}
use keviq_core.Artifacts.Lineage.Ends.{detect_cycle-answers}
use keviq_core.Artifacts.Lineage.Correct.{Ancestor, here, up, has_edge, detect_cycle-decides}
use keviq_core.Artifacts.Lineage.Acyclic.{IsAcyclic, IsAcyclic-snoc}
use keviq_core.Artifacts.Store.{
  Db, Session, pair, lies_in, with_uow, commit, ask, save_artifact, save_provenance, write,
  invocation_taken,
}
use keviq_core.Artifacts.Services.{
  RegisterArtifact, RecordEdge, fail_artifact, finalize_artifact, correlate, create,
  parse_artifact_type,
}
use keviq_core.Artifacts.Services.Finalizes.{IsFinal, finalize_artifact-Returns}
use keviq_core.Artifacts.Services.Steps.{Keeps}
use keviq_core.Artifacts.Services.Handles.{Moved, serve, begins_writing, serve-Outcome}
use keviq_core.Artifacts.Upload.{UploadArtifact, upload_artifact, persist}
use keviq_core.Artifacts.Upload.Uploads.{Uploaded, upload_artifact-Outcome}
use keviq_core.Artifacts.Routes.{record_lineage_endpoint}
use keviq_core.Artifacts.Routes.Dag.{IsDag, record_lineage_endpoint-IsDag}
use keviq_core.Artifacts.Histories.{
  IsServed, Reach, start, next, after, registers, Reach-IsServed, fail_artifact-raises,
}

abbrev artifact : ℕ → ArtifactStatus → Artifact
artifact id status = record {
  id = id;
  workspace_id = 7;
  task_id = 1;
  run_id = 2;
  step_id = none;
  agent_invocation_id = none;
  root_type = generated;
  artifact_type = file;
  artifact_status = status;
  name = "notes";
  mime_type = none;
  storage_ref = none;
  size_bytes = none;
  checksum = none;
  metadata = dumped [];
  ready_at = none;
  failed_at = none;
  created_at = 0;
  updated_at = 0;
}

abbrev edge : Edge
edge = record {
  id = 40;
  child_artifact_id = 5;
  parent_artifact_id = 6;
  edge_type = derived_from;
  run_id = none;
  step_id = none;
  created_at = 0;
}

abbrev session : List Artifact → List Edge → Session
session artifacts edges =
    let tables : Db = record {
      artifacts = artifacts;
      provenance = [];
      edges = edges;
      outbox = [];
    } in
    record {
      db = tables;
      committed = tables;
      clock = λ n. n;
      reads = 0;
      uuids = λ n. n + 100;
      draws = 0;
      port_calls = [];
    }

-- Artifact 5 was derived from artifact 6; artifact 8 is on its own.
abbrev linked : Session
linked = session (artifact 5 pending ∷ artifact 6 pending ∷ artifact 8 pending ∷ []) (edge ∷ [])

abbrev empty : Session
empty = session [] []

abbrev provenance : Provenance
provenance = record {
  artifact_id = 5;
  input_snapshot = [];
  run_config_hash = some "c0";
  tool_name = none;
  tool_version = none;
  tool_config_hash = none;
  model_provider = some "local";
  model_name_concrete = some "m";
  model_version_concrete = some "m-1";
  model_temperature = none;
  model_max_tokens = none;
  system_prompt_hash = none;
  lineage_chain = [];
  correlation_id = none;
  id = 50;
}

abbrev registration : RegisterArtifact
registration = record {
  workspace_id = 7;
  task_id = 1;
  run_id = 2;
  name = "notes";
  artifact_type = "file";
  root_type = "generated";
  step_id = none;
  agent_invocation_id = none;
  mime_type = none;
  model_provider = some "local";
  model_name_concrete = some "m";
  model_version_concrete = some "m-1";
  model_temperature = none;
  model_max_tokens = none;
  system_prompt_hash = none;
  run_config_hash = some "c0";
  tool_name = none;
  tool_version = none;
  tool_config_hash = none;
  input_snapshot = [];
  lineage_chain = [];
  correlation_id = none;
}

abbrev request : RecordEdge
request = record {
  child_artifact_id = 8;
  parent_artifact_id = 5;
  edge_type = "derived_from";
  run_id = none;
  step_id = none;
  workspace_id = 7;
  correlation_id = none;
}

abbrev zeros : ℕ → Codes
zeros zero = []
zeros (suc n) = 48 ∷ zeros n

abbrev sha256 : List ℕ → Codes
sha256 content = zeros 64

abbrev show_uuid : ℕ → String
show_uuid id = "u"

abbrev write_content : String → List ℕ → Result (Unit {0})
write_content key content = ok tt

detect_cycle-answers_example : (b : _) × (detect_cycle 6 5 ((5, 6) ∷ []) ≡ answered b)
detect_cycle-answers_example = detect_cycle-answers 6 5 ((5, 6) ∷ [])

detect_cycle-decides_example :
    ((detect_cycle 6 5 ((5, 6) ∷ []) ≡ answered true) × Ancestor ((5, 6) ∷ []) 5 6)
    ⊎ ((detect_cycle 6 5 ((5, 6) ∷ []) ≡ answered false) × (¬ Ancestor ((5, 6) ∷ []) 5 6))
detect_cycle-decides_example = detect_cycle-decides 6 5 ((5, 6) ∷ [])

-- Artifact 5 is being written, with its provenance stored.
abbrev written : Session
written =
    let tables : Db = record {
      artifacts = artifact 5 writing ∷ [];
      provenance = provenance ∷ [];
      edges = [];
      outbox = [];
    } in
    record empty { db = tables; committed = tables }

finalize_artifact-Returns_example :
    Returns
      (λ _ s. IsFinal s 5 (zeros 64) (ℤ.pos 3))
      (finalize_artifact 5 (zeros 64) (ℤ.pos 3) none written)
unfolding check_final Artifact.validate Provenance.post_init invocation_taken
    Provenance.is_model_alias Tables.find
finalize_artifact-Returns_example =
    finalize_artifact-Returns 5 (zeros 64) (ℤ.pos 3) none (artifact 5 writing) provenance written
      refl refl refl refl refl refl refl refl

serve-Outcome_example :
    Outcome
      (λ a s'. Moved linked.committed 5 a s'.committed)
      (Keeps linked.committed)
      (serve (begins_writing "k") 5 none linked)
serve-Outcome_example = serve-Outcome 5 none linked (begins_writing "k")

abbrev upload : UploadArtifact
upload = record {
  workspace_id = 7;
  name = "notes";
  artifact_type = "file";
  mime_type = none;
  content = 1 ∷ 2 ∷ 3 ∷ [];
  correlation_id = none;
}

abbrev statuses : List Artifact → List ArtifactStatus
statuses [] = []
statuses (a ∷ rows) = a.artifact_status ∷ statuses rows

-- An upload is ready.
upload_test :
    statuses (upload_artifact sha256 show_uuid write_content upload empty).1.committed.artifacts
    ≡ ready ∷ []
unfolding upload_artifact persist correlate create parse_artifact_type with_uow commit ask
    save_artifact save_provenance write Provenance.post_init Artifact.new Artifact.validate
    Artifact.begin_writing Artifact.finalize Tables.save
upload_test = refl

-- Artifact 5 descends from artifact 6, so that 6 cannot be derived from 5.
cycle_test : detect_cycle 6 5 ((5, 6) ∷ []) ≡ answered true
unfolding detect_cycle
cycle_test = refl

upload_artifact-Outcome_example :
    Outcome
      (λ a s'. Uploaded sha256 show_uuid write_content upload a empty.committed s'.committed)
      (Keeps empty.committed)
      (upload_artifact sha256 show_uuid write_content upload empty)
upload_artifact-Outcome_example =
    upload_artifact-Outcome sha256 show_uuid write_content upload empty

abbrev registered : Session
registered = after sha256 show_uuid write_content (registers registration) empty

registered-Reach : Reach sha256 show_uuid write_content registered
registered-Reach = next (registers registration) empty (start empty refl)

Reach-IsServed_example : IsServed registered.committed
Reach-IsServed_example = Reach-IsServed sha256 show_uuid write_content registered registered-Reach

fail_artifact-raises_example :
    (e : Error) × ((fail_artifact 101 none false none registered).0 ≡ err e)
    × ((fail_artifact 101 none false none registered).1.committed ≡ registered.committed)
fail_artifact-raises_example =
    fail_artifact-raises sha256 show_uuid write_content registered 101 none false none
      registered-Reach

no_path : {a b : ℕ} → Ancestor [] a b → a ≡ b
unfolding has_edge
no_path here = refl
no_path (up b p e) = cc

linked-IsDag : IsDag linked.committed
unfolding IsAcyclic has_edge lies_in
linked-IsDag = record {
  is_local = (record { workspace = 7; child = refl; parent = refl }, tt);
  acyclic =
      IsAcyclic-snoc [] 5 6 (λ a b e p. cc)
        (λ p. let same : 6 ≡ 5 = no_path p in ground (arith, same));
}

record_lineage_endpoint-IsDag_example :
    Outcome
      (λ e s'.
        (s'.committed.edges ≡ linked.committed.edges ++ e ∷ [])
        × (pair e ≡ (8, 5))
        × IsDag s'.committed)
      (Keeps linked.committed)
      (record_lineage_endpoint request linked)
record_lineage_endpoint-IsDag_example = record_lineage_endpoint-IsDag request linked linked-IsDag
