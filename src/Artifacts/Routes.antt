-- ===== src/Artifacts/Routes.antt =====
-- apps/artifact-service/src/api/routes_lineage.py and route_helpers.py: `record_lineage_endpoint`, after
-- its body has been parsed; its answers are the errors that it turns into HTTP codes.
pub mod Dag
use keviq_core.Prelude.{ℕ, ◌==◌, not}
use keviq_core.Errors.{http_not_found, raise_if}
use keviq_core.Artifacts.Artifact.{Artifact}
use keviq_core.Artifacts.Edge.{Edge}
use keviq_core.Artifacts.Store.{Tx, ◌>>=◌, ◌>>◌, lift, with_uow}
use keviq_core.Artifacts.Services.{RecordEdge, require_artifact, record_lineage_edge}

unfoldable pub verify_workspace : Artifact → (workspace_id : ℕ) → Tx (Unit {0})
verify_workspace artifact workspace_id =
    lift (raise_if (not (artifact.workspace_id == workspace_id)) http_not_found)

unfoldable pub check_artifact_workspace : (artifact_id workspace_id : ℕ) → Tx (Unit {0})
check_artifact_workspace artifact_id workspace_id = do
  artifact ← require_artifact artifact_id
  verify_workspace artifact workspace_id

unfoldable pub record_lineage_endpoint : RecordEdge → Tx Edge
record_lineage_endpoint c = do
  with_uow do
    check_artifact_workspace c.child_artifact_id c.workspace_id
    check_artifact_workspace c.parent_artifact_id c.workspace_id
  record_lineage_edge c
