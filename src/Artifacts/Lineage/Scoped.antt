-- ===== src/Artifacts/Lineage/Scoped.antt =====
-- Following parents inside one workspace: where every edge joins artifacts of one workspace, the edges of
-- that workspace are enough.
use keviq_core.Prelude.{
  ℕ, ◌≡◌, true, List, [], ◌∷◌, map, All, arith, Bool-cases, ==→eq, inl, inr, some,
}
use keviq_core.Prelude.Tables
use keviq_core.Artifacts.Artifact.{Artifact}
use keviq_core.Artifacts.Edge.{Edge}
use keviq_core.Artifacts.Lineage.Correct.{has_edge, Ancestor, here, up}
use keviq_core.Artifacts.Store.{lies_in, pair, edges_in}

-- Both ends of the edge lie in one workspace.
pub record IsLocal (artifacts : List Artifact) (e : Edge) : Type 0 where
  pub workspace : ℕ
  pub child : lies_in artifacts workspace e.child_artifact_id ≡ true
  pub parent : lies_in artifacts workspace e.parent_artifact_id ≡ true

-- An artifact lies in one workspace only.
lies_in_unique :
    (rows : List Artifact) (v w id : ℕ)
    → lies_in rows v id ≡ true
    → lies_in rows w id ≡ true
    → v ≡ w
unfolding lies_in
lies_in_unique [] v w id h k = ground (arith, h)
lies_in_unique (a ∷ rows) v w id h k = ground (arith, h, k, lies_in_unique rows v w id)

pub lies_in-find :
    (rows : List Artifact) (w id : ℕ) (a : Artifact)
    → Tables.find (λ r. r.id) id rows ≡ some a
    → a.workspace_id ≡ w
    → lies_in rows w id ≡ true
unfolding lies_in Tables.find
lies_in-find [] w id a h e = cc
lies_in-find (b ∷ rows) w id a h e = ground (arith, h, e, lies_in-find rows w id a)

module _ (rows : List Artifact) (w : ℕ) where
  local-step :
      (e : Edge)
      → IsLocal rows e
      → lies_in rows w e.child_artifact_id ≡ true
      → lies_in rows w e.parent_artifact_id ≡ true
  local-step e l h = rw (lies_in_unique rows w l.workspace e.child_artifact_id h l.child) l.parent

  scoped-edge :
      (edges : List Edge) (a b : ℕ)
      → All (IsLocal rows) edges
      → lies_in rows w a ≡ true
      → has_edge (map pair edges) a b ≡ true
      → (has_edge (edges_in w rows edges) a b ≡ true) × (lies_in rows w b ≡ true)
  unfolding has_edge
  scoped-edge [] a b l h e = ground (arith, e)
  scoped-edge (x ∷ edges) a b l h e = elim (Bool-cases (lies_in rows w x.child_artifact_id)) [
    | inl inside ↦ rw inside (
        ground (
          arith,
          e,
          local-step x l.0 inside,
          scoped-edge edges a b l.1 h,
          ==→eq x.parent_artifact_id b,
        ))
    | inr outside ↦
        rw outside
          (ground (arith, e, h, outside, scoped-edge edges a b l.1 h, ==→eq x.child_artifact_id a))
  ]

  -- Every ancestor of an artifact of the workspace is reached by the workspace's edges.
  pub scoped :
      (edges : List Edge) (x : ℕ) {y : ℕ}
      → All (IsLocal rows) edges
      → lies_in rows w x ≡ true
      → Ancestor (map pair edges) x y
      → Ancestor (edges_in w rows edges) x y × (lies_in rows w y ≡ true)
  scoped edges x l h here = (here, h)
  scoped edges x l h (up {a} b q e) =
      let (path, inside) = scoped edges x l h q in
      let (edge, next) = scoped-edge edges a b l inside e in (up b path edge, next)
