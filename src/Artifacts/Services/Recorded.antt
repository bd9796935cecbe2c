-- ===== src/Artifacts/Services/Recorded.antt =====
-- `record_lineage_edge`: nothing on failure, one more edge on success.
use keviq_core.Prelude.{
  ℕ, ◌+◌, ◌≡◌, ◌==◌, refl, ap, ◌∙◌, List, [], ◌∷◌, ◌++◌, length, length-snoc, Bool-cases, inl, inr,
  arith,
}
use keviq_core.Errors.{ok, raise_if, lineage_self_loop}
use keviq_core.Transaction.Outcomes.{Outcome, returned, raised, Outcome-bind, Outcome-weaken}
use keviq_core.Artifacts.Edge
use keviq_core.Artifacts.Edge.{Edge, parse_edge_type}
use keviq_core.Artifacts.Lineage.{detect_cycle}
use keviq_core.Artifacts.Lineage.Correct.{Ancestor, detect_cycle-decides}
use keviq_core.Artifacts.Events.{Draft}
use keviq_core.Artifacts.Store.{
  Db, Session, ◌>>◌, pure, commit, save_edge, edge_taken, write, pair, edges_in,
  list_edges_by_workspace,
}
use keviq_core.Artifacts.Services.{RecordEdge, record_lineage_edge, refuse_cycle}
use keviq_core.Artifacts.Services.Steps.{
  Keeps, Fresh, lift-Fresh, require_artifact-Outcome, service-Outcome,
}

-- The edge is stored after the others and one event is added.
pub record Added (e : Edge) (c d : Db) : Type 0 where
  pub edges : d.edges ≡ c.edges ++ e ∷ []
  pub artifacts : d.artifacts ≡ c.artifacts
  pub provenance : d.provenance ≡ c.provenance
  pub outbox : length d.outbox ≡ length c.outbox + 1

-- The edge that was asked for is added, and within the edges of the workspace the child is not an
-- ancestor of the parent.
pub record Recorded (r : RecordEdge) (e : Edge) (c d : Db) : Type 0 where
  pub joins : pair e ≡ (r.child_artifact_id, r.parent_artifact_id)
  pub apart :
      ¬ Ancestor
        (edges_in r.workspace_id c.artifacts c.edges)
        r.parent_artifact_id
        r.child_artifact_id
  pub added : Added e c d

post_init-same : (e f : Edge) → Edge.post_init e ≡ ok f → f ≡ e
unfolding Edge.post_init
post_init-same e f h = ground (arith, h)

refuse_cycle-apart :
    (child parent : ℕ) (edges : List (ℕ × ℕ)) (u : Unit {0})
    → refuse_cycle (detect_cycle child parent edges) ≡ ok u
    → ¬ Ancestor edges parent child
unfolding refuse_cycle
refuse_cycle-apart child parent edges u h = elim (detect_cycle-decides child parent edges) [
  | inl (yes_found, _) ↦ let h' = rw (yes_found, refuse_cycle) at h in cc
  | inr (_, apart) ↦ apart
]

add-Outcome :
    (c : Db) (e : Edge) (draft : Draft) (s : Session)
    → Fresh c s
    → Outcome
        (λ f s'. (f ≡ e) × Added e c s'.committed)
        (Keeps c)
        ((do save_edge e; write draft; commit; pure e) s)
unfolding save_edge write commit
add-Outcome c e draft s f = elim (Bool-cases (edge_taken e s.db.edges)) [
  | inl taken ↦ rw (taken, save_edge) (raised _ _ f.committed)
  | inr free ↦
      rw (free, save_edge)
        (returned _ _ (
          refl,
          record {
            edges = ap (λ d. d.edges ++ e ∷ []) f.db;
            artifacts = ap (λ d. d.artifacts) f.db;
            provenance = ap (λ d. d.provenance) f.db;
            outbox = length-snoc s.db.outbox _ ∙ ap (λ d. length d.outbox + 1) f.db;
          },
        ))
]

pub record_lineage_edge-Outcome :
    (r : RecordEdge) (s : Session)
    → Outcome
        (λ e s'. Recorded r e s.committed s'.committed)
        (Keeps s.committed)
        (record_lineage_edge r s)
unfolding record_lineage_edge list_edges_by_workspace
record_lineage_edge-Outcome r s =
    let c = s.committed in
    service-Outcome (λ e d. Recorded r e c d) r.correlation_id _ s
      (λ cid t f. Outcome-bind (require_artifact-Outcome c r.child_artifact_id t f) (λ _ t (_, f).
        Outcome-bind (require_artifact-Outcome c r.parent_artifact_id t f) (λ _ t (_, f).
          Outcome-bind
            (lift-Fresh c (raise_if (r.child_artifact_id == r.parent_artifact_id) lineage_self_loop)
              t f)
            (λ _ t (_, f).
              let edges = edges_in r.workspace_id t.db.artifacts t.db.edges in
              Outcome-bind
                (lift-Fresh c
                  (refuse_cycle (detect_cycle r.child_artifact_id r.parent_artifact_id edges)) t f)
                (λ u t' (open_end, g).
                  let apart =
                    refuse_cycle-apart r.child_artifact_id r.parent_artifact_id edges u open_end in
                  Outcome-bind (lift-Fresh c (parse_edge_type r.edge_type) t' g) (λ type t (_, g).
                    Outcome-bind
                      (lift-Fresh c (Edge.post_init _)
                        (record t { draws = t.draws + 1; reads = t.reads + 1 })
                        record { committed = g.committed; db = g.db })
                      (λ e t (made, g).
                        Outcome-weaken (add-Outcome c e _ t g) (λ b t' (same, added).
                          rw same record {
                            joins = ap pair (post_init-same _ e made);
                            apart = rw (← f.db) apart;
                            added = added;
                          }))))))))
