-- ===== src/Artifacts/Edge.antt =====
-- apps/artifact-service/src/domain/lineage.py: `ArtifactLineageEdge`. The attribute `transform_detail`,
-- which every caller leaves empty, is left out.
use keviq_core.Prelude.{ℕ, ◌==◌, String, Bool, true, false, Option, str_eq, if◌then◌else◌}
use keviq_core.Errors.{lineage_self_loop, value_error, Result, ok, err}

pub data EdgeType : Type 0 where
  derived_from transformed_from aggregated_from promoted_from : EdgeType

-- `EdgeType(value)`
unfoldable pub parse_edge_type : String → Result EdgeType
parse_edge_type s =
    if str_eq s "derived_from"
    then ok derived_from
    else if str_eq s "transformed_from"
    then ok transformed_from
    else if str_eq s "aggregated_from"
    then ok aggregated_from
    else if str_eq s "promoted_from"
    then ok promoted_from
    else err value_error

pub record Edge : Type 0 where
  pub id : ℕ
  pub child_artifact_id : ℕ
  pub parent_artifact_id : ℕ
  pub edge_type : EdgeType
  pub run_id : Option ℕ
  pub step_id : Option ℕ
  pub created_at : ℕ

-- `__post_init__`: the edge, unless it is a loop.
unfoldable pub post_init : Edge → Result Edge
post_init e = if e.child_artifact_id == e.parent_artifact_id then err lineage_self_loop else ok e

abbrev pub edge_type_eq : EdgeType → EdgeType → Bool
edge_type_eq derived_from derived_from = true
edge_type_eq transformed_from transformed_from = true
edge_type_eq aggregated_from aggregated_from = true
edge_type_eq promoted_from promoted_from = true
edge_type_eq _ _ = false
