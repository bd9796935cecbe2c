-- ===== src/Artifacts/Artifact.antt =====
-- apps/artifact-service/src/domain/artifact.py. Times are in microseconds; each `now` is one reading
-- of the clock, in the order of the calls. A checksum is the list of its code points. The
-- attribute `lineage`, which every caller leaves empty, is left out.
pub mod Ready
use keviq_core.Prelude.{
  ℕ, ◌==◌, String, Bool, true, false, not, Option, none, some, List, [], ◌∷◌, length, str_eq,
  is_blank, is_empty, if◌then◌else◌, Codes, lower, ℤ, is_negative,
}
use keviq_core.Errors.{domain_validation, type_error, Result, ok, err, ◌>>=◌, ◌>>◌, raise_if}
use keviq_core.Machine.{Machine, fire}
use keviq_core.Artifacts.Hex.{is_int_16}
use keviq_core.Artifacts.Provenance.{Provenance, validate_complete}

pub data RootType : Type 0 where
  generated upload repo_snapshot imported : RootType

pub data ArtifactType : Type 0 where
  file code_patch report dataset log structured_data model_output : ArtifactType

pub data ArtifactStatus : Type 0 where
  pending writing ready failed : ArtifactStatus

-- `_ARTIFACT_TRANSITIONS`
abbrev pub artifact_transitions : ArtifactStatus → ArtifactStatus → Bool
artifact_transitions pending writing = true
artifact_transitions pending failed = true
artifact_transitions writing ready = true
artifact_transitions writing failed = true
artifact_transitions _ _ = false

-- `_ARTIFACT_TERMINAL`
abbrev pub artifact_terminal : ArtifactStatus → Bool
artifact_terminal ready = true
artifact_terminal failed = true
artifact_terminal _ = false

abbrev pub artifact_machine : Machine ArtifactStatus
artifact_machine = record { is_terminal = artifact_terminal; allowed = artifact_transitions }

-- A value in `metadata`.
pub data MetaValue : Type 0 where
  text : String → MetaValue
  flag : Bool → MetaValue

abbrev pub MetaDict : Type 0
MetaDict = List (String × MetaValue)

-- What `self.metadata` holds: a dict, or the text that `json.dumps` made of one.
pub data Metadata : Type 0 where
  mapping dumped : MetaDict → Metadata

pub record Artifact : Type 0 where
  pub id : ℕ
  pub workspace_id : ℕ
  pub task_id : ℕ
  pub run_id : ℕ
  pub step_id : Option ℕ
  pub agent_invocation_id : Option ℕ
  pub root_type : RootType
  pub artifact_type : ArtifactType
  pub artifact_status : ArtifactStatus
  pub name : String
  pub mime_type : Option String
  pub storage_ref : Option String
  pub size_bytes : Option ℤ
  pub checksum : Option Codes
  pub metadata : Metadata
  pub ready_at : Option ℕ
  pub failed_at : Option ℕ
  pub created_at : ℕ
  pub updated_at : ℕ

-- `Artifact(…)`: the name is checked, whatever the rest of the artifact is.
unfoldable pub validate : Artifact → Result Artifact
unfolding is_blank
validate a = do raise_if (is_blank a.name) domain_validation; ok a

-- The arguments that the services give to `Artifact(…)`.
pub record ArtifactArgs : Type 0 where
  pub workspace_id : ℕ
  pub task_id : ℕ
  pub run_id : ℕ
  pub name : String
  pub artifact_type : ArtifactType
  pub root_type : RootType
  pub step_id : Option ℕ
  pub agent_invocation_id : Option ℕ
  pub mime_type : Option String

unfoldable pub new : (fresh now : ℕ) → ArtifactArgs → Artifact
new fresh now args = record {
  id = fresh;
  workspace_id = args.workspace_id;
  task_id = args.task_id;
  run_id = args.run_id;
  step_id = args.step_id;
  agent_invocation_id = args.agent_invocation_id;
  root_type = args.root_type;
  artifact_type = args.artifact_type;
  artifact_status = pending;
  name = args.name;
  mime_type = args.mime_type;
  storage_ref = none;
  size_bytes = none;
  checksum = none;
  metadata = mapping [];
  ready_at = none;
  failed_at = none;
  created_at = now;
  updated_at = now;
}

-- `Artifact._transition`
unfoldable pub transition : ArtifactStatus → ℕ → Artifact → Result (ArtifactStatus × Artifact)
unfolding fire
transition target now a = do
  status ← fire artifact_machine a.artifact_status target
  ok (a.artifact_status, record a { artifact_status = status; updated_at = now })

unfoldable pub begin_writing :
    (storage_ref : String) → ℕ → Artifact → Result (ArtifactStatus × Artifact)
unfolding transition is_blank
begin_writing storage_ref now a = do
  raise_if (is_blank storage_ref) domain_validation
  (prev, a') ← transition writing now a
  ok (prev, record a' { storage_ref = some storage_ref })

abbrev pub is_upload : RootType → Bool
is_upload upload = true
is_upload _ = false

-- The checks of `finalize` before it moves.
unfoldable pub check_final : Codes → ℤ → Provenance → Artifact → Result (Unit {0})
unfolding validate_complete is_int_16
check_final checksum size_bytes provenance a = do
  raise_if (not (length checksum == 64)) domain_validation
  raise_if (not (is_int_16 checksum)) domain_validation
  raise_if (is_negative size_bytes) domain_validation
  validate_complete (is_upload a.root_type) provenance

unfoldable pub finalize :
    Codes → ℤ → Provenance → (now now' : ℕ) → Artifact → Result (ArtifactStatus × Artifact)
unfolding transition check_final
finalize checksum size_bytes provenance now now' a = do
  check_final checksum size_bytes provenance a
  (prev, a') ← transition ready now a
  ok (
    prev,
    record a' {
      checksum = some (lower checksum);
      size_bytes = some size_bytes;
      ready_at = some now';
    },
  )

-- `{**d, key: value}`
unfoldable pub put : String → MetaValue → MetaDict → MetaDict
put key value [] = (key, value) ∷ []
put key value ((k, v) ∷ d) = if str_eq k key then (k, value) ∷ d else (k, v) ∷ put key value d

-- `failure_reason or "unknown"`
abbrev reason_or : Option String → String
reason_or none = "unknown"
reason_or (some s) = if is_empty s then "unknown" else s

-- `{**self.metadata, "failure_reason": …, "partial_data_available": …}`; a text is not a mapping.
unfoldable pub annotate : Option String → Bool → Metadata → Result Metadata
unfolding put
annotate reason partial_data (mapping d) = ok (
    mapping (
      put "partial_data_available" (flag partial_data)
        (put "failure_reason" (text (reason_or reason)) d)))
annotate reason partial_data (dumped d) = err type_error

unfoldable pub fail :
    Option String
    → (partial_data : Bool) (now now' : ℕ) → Artifact
    → Result (ArtifactStatus × Artifact)
unfolding transition annotate
fail reason partial_data now now' a = do
  (prev, a') ← transition failed now a
  metadata ← annotate reason partial_data a'.metadata
  ok (prev, record a' { failed_at = some now'; metadata = metadata })
