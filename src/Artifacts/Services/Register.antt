-- ===== src/Artifacts/Services/Register.antt =====
-- `register_artifact`: nothing on failure, the artifact and its provenance on success.
use keviq_core.Prelude.{
  is_blank, ◌+◌, ◌≡◌, refl, arith, ap, ◌∙◌, length, length-snoc, Bool-cases, inl, inr, none,
}
use keviq_core.Prelude.Tables
use keviq_core.Errors.{raise_if, domain_validation, ok}
use keviq_core.Transaction.Outcomes.{Outcome, returned, raised, Outcome-bind}
use keviq_core.Artifacts.Artifact
use keviq_core.Artifacts.Artifact.{Artifact, ArtifactStatus, ArtifactArgs, validate}
use keviq_core.Artifacts.Provenance
use keviq_core.Artifacts.Provenance.{Provenance}
use keviq_core.Artifacts.Events.{Draft}
use keviq_core.Artifacts.Store.{
  Db, Session, ◌>>◌, pure, commit, save_artifact, invocation_taken, save_provenance,
  provenance_taken, to_row, write,
}
use keviq_core.Artifacts.Services.{
  RegisterArtifact, register_artifact, register_args, register_provenance, create,
  parse_artifact_type, parse_root_type,
}
use keviq_core.Artifacts.Services.Steps.{Keeps, Fresh, lift-Fresh, service-Outcome}

-- A pending artifact and a provenance of it whose model is not an alias have been stored, one event
-- is added, and no edge has changed.
pub record Registered (a : Artifact) (c d : Db) : Type 0 where
  pub pending : a.artifact_status ≡ ArtifactStatus.pending
  pub no_checksum : a.checksum ≡ none
  pub of : Provenance
  pub concrete : Provenance.post_init of ≡ ok of
  pub belongs : of.artifact_id ≡ a.id
  pub artifacts : d.artifacts ≡ Tables.save (λ r. r.id) (to_row a) c.artifacts
  pub provenance : d.provenance ≡ Tables.save (λ r. r.id) of c.provenance
  pub edges : d.edges ≡ c.edges
  pub outbox : length d.outbox ≡ length c.outbox + 1

post_init-same : (p q : Provenance) → Provenance.post_init p ≡ ok q → q ≡ p
unfolding Provenance.post_init
post_init-same p q h = ground (arith, h)

create-Outcome :
    (c : Db) (args : ArtifactArgs) (s : Session)
    → Fresh c s
    → Outcome
        (λ a s'. ((a.artifact_status ≡ ArtifactStatus.pending) × (a.checksum ≡ none)) × Fresh c s')
        (Keeps c)
        (create args s)
unfolding create Artifact.new
create-Outcome c args s f =
    Outcome-bind (lift-Fresh c (raise_if (is_blank args.name) domain_validation) s f)
      (λ _ t (_, f). returned _ _ ((refl, refl), record { committed = f.committed; db = f.db }))

-- Both rows are saved and the event is written.
store-Outcome :
    (c : Db) (a : Artifact) (p : Provenance) (draft : Draft) (s : Session)
    → a.artifact_status ≡ ArtifactStatus.pending
    → a.checksum ≡ none
    → Provenance.post_init p ≡ ok p
    → p.artifact_id ≡ a.id
    → Fresh c s
    → Outcome
        (λ b s'. Registered b c s'.committed)
        (Keeps c)
        ((do save_artifact a; save_provenance p; write draft; commit; pure a) s)
unfolding save_artifact save_provenance write commit
store-Outcome c a p draft s pending no_checksum concrete belongs f =
    elim (Bool-cases (invocation_taken a s.db.artifacts)) [
      | inl taken ↦ rw (taken, save_artifact) (raised _ _ f.committed)
      | inr free ↦ elim (Bool-cases (provenance_taken p s.db.provenance)) [
        | inl taken ↦ rw (free, save_artifact, taken, save_provenance) (raised _ _ f.committed)
        | inr new ↦
            rw (free, save_artifact, new, save_provenance)
              (returned _ _ record {
                pending = pending;
                no_checksum = no_checksum;
                of = p;
                concrete = concrete;
                belongs = belongs;
                artifacts = ap (λ d. Tables.save (λ r. r.id) (to_row a) d.artifacts) f.db;
                provenance = ap (λ d. Tables.save (λ r. r.id) p d.provenance) f.db;
                edges = ap (λ d. d.edges) f.db;
                outbox = length-snoc s.db.outbox _ ∙ ap (λ d. length d.outbox + 1) f.db;
              })
      ]
    ]

pub register_artifact-Outcome :
    (cmd : RegisterArtifact) (s : Session)
    → Outcome
        (λ a s'. Registered a s.committed s'.committed)
        (Keeps s.committed)
        (register_artifact cmd s)
unfolding register_artifact
register_artifact-Outcome cmd s =
    let c = s.committed in
    service-Outcome (λ a d. Registered a c d) cmd.correlation_id _ s
      (λ cid t f.
        Outcome-bind (lift-Fresh c (parse_artifact_type cmd.artifact_type) t f)
          (λ artifact_type t (_, f).
            Outcome-bind (lift-Fresh c (parse_root_type cmd.root_type) t f) (λ root_type t (_, f).
              Outcome-bind (create-Outcome c (register_args cmd artifact_type root_type) t f)
                (λ a t ((pending, no_checksum), f).
                  let made = register_provenance cmd a.id cid (t.uuids t.draws) in
                  Outcome-bind
                    (lift-Fresh c (Provenance.post_init made) _
                      record { committed = f.committed; db = f.db })
                    (λ p t (concrete, f).
                      let same = post_init-same made p concrete in
                      store-Outcome c a p _ t pending no_checksum (rw same (rw same at concrete))
                        (rw same refl) f)))))
