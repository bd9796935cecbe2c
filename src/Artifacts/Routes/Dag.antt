-- ===== src/Artifacts/Routes/Dag.antt =====
-- The lineage stays a graph without cycles, within the workspaces and across them.
use keviq_core.Prelude.{
  ℕ, ◌≡◌, ◌==◌, refl, ap, true, not, List, [], ◌∷◌, ◌++◌, map, All, All-append, arith, ==→eq,
}
use mathlib.Core.Path.{subst}
use keviq_core.Errors.{raise_if, http_not_found}
use keviq_core.Transaction.Outcomes.{Outcome, Outcome-bind, Outcome-weaken, Outcome-close}
use keviq_core.Artifacts.Edge.{Edge}
use keviq_core.Artifacts.Lineage.Correct.{Ancestor}
use keviq_core.Artifacts.Lineage.Acyclic.{IsAcyclic, IsAcyclic-snoc}
use keviq_core.Artifacts.Lineage.Scoped.{IsLocal, lies_in-find, scoped}
use keviq_core.Artifacts.Store.{Db, Session, lies_in, pair, with_uow}
use keviq_core.Artifacts.Services.{RecordEdge, record_lineage_edge}
use keviq_core.Artifacts.Services.Steps.{Keeps, Fresh, lift-Fresh, require_artifact-Outcome}
use keviq_core.Artifacts.Services.Recorded.{Recorded, record_lineage_edge-Outcome}
use keviq_core.Artifacts.Routes.{
  verify_workspace, check_artifact_workspace, record_lineage_endpoint,
}

-- Every edge joins two artifacts of one workspace, and no artifact is an ancestor of its parent.
pub record IsDag (d : Db) : Type 0 where
  pub is_local : All (IsLocal d.artifacts) d.edges
  pub acyclic : IsAcyclic (map pair d.edges)

check_artifact_workspace-Outcome :
    (c : Db) (id w : ℕ) (s : Session)
    → Fresh c s
    → Outcome
        (λ _ s'. (lies_in c.artifacts w id ≡ true) × Fresh c s')
        (Keeps c)
        (check_artifact_workspace id w s)
unfolding check_artifact_workspace verify_workspace
check_artifact_workspace-Outcome c id w s f =
    Outcome-bind (require_artifact-Outcome c id s f) (λ a t (found, f).
      Outcome-weaken (lift-Fresh c (raise_if (not (a.workspace_id == w)) http_not_found) t f)
        (λ u t (same, f). (
          lies_in-find c.artifacts w id a found (==→eq a.workspace_id w (ground (arith, same))),
          f,
        )))

-- Both artifacts lie in the workspace of the request, and the edge is recorded.
pub record Linked (r : RecordEdge) (e : Edge) (c d : Db) : Type 0 where
  pub child : lies_in c.artifacts r.workspace_id r.child_artifact_id ≡ true
  pub parent : lies_in c.artifacts r.workspace_id r.parent_artifact_id ≡ true
  pub recorded : Recorded r e c d

pub record_lineage_endpoint-Outcome :
    (r : RecordEdge) (s : Session)
    → Outcome
        (λ e s'. Linked r e s.committed s'.committed)
        (Keeps s.committed)
        (record_lineage_endpoint r s)
unfolding record_lineage_endpoint with_uow
record_lineage_endpoint-Outcome r s =
    let c = s.committed in
    let w = r.workspace_id in
    Outcome-bind
      (Outcome-close
        {P = λ _ t.
          (lies_in c.artifacts w r.child_artifact_id ≡ true)
          × (lies_in c.artifacts w r.parent_artifact_id ≡ true)
          × Fresh c t}
        {Q = λ _ t.
          (lies_in c.artifacts w r.child_artifact_id ≡ true)
          × (lies_in c.artifacts w r.parent_artifact_id ≡ true)
          × Keeps c t}
        (Outcome-bind
          (check_artifact_workspace-Outcome c r.child_artifact_id w _
            record { committed = refl; db = refl })
          (λ _ t (child, f).
            Outcome-weaken (check_artifact_workspace-Outcome c r.parent_artifact_id w t f)
              (λ _ t (parent, f). (child, parent, f))))
        (λ _ t (child, parent, f). (child, parent, f.committed)) (λ t k. k))
      (λ _ t (child, parent, k).
        subst (λ d. Outcome (λ e s'. Linked r e c s'.committed) (Keeps d) (record_lineage_edge r t))
          k
          (Outcome-weaken (record_lineage_edge-Outcome r t) (λ e t' recorded. record {
            child = child;
            parent = parent;
            recorded = subst (λ d. Recorded r e d t'.committed) k recorded;
          })))

map-snoc : (es : List Edge) (e : Edge) → map pair (es ++ e ∷ []) ≡ map pair es ++ pair e ∷ []
map-snoc [] e = refl
map-snoc (x ∷ es) e = ap (λ rest. pair x ∷ rest) (map-snoc es e)

IsDag-link : (r : RecordEdge) (e : Edge) (c d : Db) → IsDag c → Linked r e c d → IsDag d
IsDag-link r e c d dag l =
    let added = l.recorded.added in
    let joins = l.recorded.joins in
    let apart = λ (path : Ancestor (map pair c.edges) r.parent_artifact_id r.child_artifact_id).
      l.recorded.apart
        (scoped c.artifacts r.workspace_id c.edges r.parent_artifact_id dag.is_local l.parent
          path).0 in
    record {
      is_local =
          rw (added.edges, added.artifacts)
            (All-append (IsLocal c.artifacts) c.edges (e ∷ []) dag.is_local (
              record {
                workspace = r.workspace_id;
                child = rw (ap (λ p. p.0) joins) l.child;
                parent = rw (ap (λ p. p.1) joins) l.parent;
              },
              tt,
            ));
      acyclic =
          rw (added.edges, map-snoc c.edges e, joins)
            (IsAcyclic-snoc (map pair c.edges) r.child_artifact_id r.parent_artifact_id dag.acyclic
              apart);
    }

-- From tables whose edges join artifacts of one workspace without a cycle, a request for an edge leaves
-- such tables: when it returns it has added the edge of the request, and when it raises it has committed
-- nothing. Edges of other workspaces, which the search leaves out, close no cycle either.
pub record_lineage_endpoint-IsDag :
    (r : RecordEdge) (s : Session)
    → IsDag s.committed
    → Outcome
        (λ e s'.
          (s'.committed.edges ≡ s.committed.edges ++ e ∷ [])
          × (pair e ≡ (r.child_artifact_id, r.parent_artifact_id))
          × IsDag s'.committed)
        (Keeps s.committed)
        (record_lineage_endpoint r s)
record_lineage_endpoint-IsDag r s dag =
    Outcome-weaken (record_lineage_endpoint-Outcome r s) (λ e t l.
      (l.recorded.added.edges, l.recorded.joins, IsDag-link r e s.committed t.committed dag l))
