-- ===== src/Artifacts/Histories.antt =====
-- The requests that artifact-service serves, one after another, from empty tables: registration, the moves
-- of an artifact, uploads and lineage edges.
use keviq_core.Prelude.{ℕ, ◌+◌, ◌≡◌, sym, ◌∙◌, refl, String, Bool, Option, List, [], All, Codes}
use keviq_core.Prelude.Tables
use keviq_core.Errors.{Error, Result, err}
use keviq_core.Transaction.Outcomes.{Outcome, returned, raised, Outcome-bind}
use keviq_core.Artifacts.Artifact
use keviq_core.Artifacts.Artifact.{Artifact, MetaDict, Metadata, ArtifactStatus, dumped, mapping}
use keviq_core.Artifacts.Artifact.Ready.{IsComplete, complete, fail-dumped}
use keviq_core.Artifacts.Store.{Db, Session, dump, to_row}
use keviq_core.Artifacts.Services.{RegisterArtifact, RecordEdge, register_artifact, fail_artifact}
use keviq_core.Artifacts.Services.Steps.{
  Keeps, lift-Fresh, require_artifact-Outcome, service-Outcome,
}
use keviq_core.Artifacts.Services.Handles.{Move, serve, serve-Outcome}
use keviq_core.Artifacts.Services.Register.{register_artifact-Outcome}
use keviq_core.Artifacts.Services.Complete.{IsSound, IsSound-save, Moved-IsComplete}
use keviq_core.Artifacts.Upload.{UploadArtifact, upload_artifact}
use keviq_core.Artifacts.Upload.Uploads.{upload_artifact-Outcome}
use keviq_core.Artifacts.Routes.{record_lineage_endpoint}
use keviq_core.Artifacts.Routes.Dag.{record_lineage_endpoint-Outcome}

-- The metadata of the row are the text of a dict.
pub data IsText (a : Artifact) : Type 0 where
  is_text : (d : MetaDict) → a.metadata ≡ dumped d → IsText a

-- Every row has its metadata as a text, and on record what its status asks for.
pub record IsServed (d : Db) : Type 0 where
  pub sound : IsSound d
  pub texts : All IsText d.artifacts

dump-IsText : (m : Metadata) → (d : MetaDict) × (dump m ≡ dumped d)
dump-IsText (mapping d) = (d, refl)
dump-IsText (dumped d) = (d, refl)

IsText-row : (a : Artifact) → IsText (to_row a)
unfolding to_row
IsText-row a = let (d, e) = dump-IsText a.metadata in is_text d e

IsServed-save :
    (a : Artifact) (c d : Db)
    → IsServed c
    → IsComplete a
    → d.artifacts ≡ Tables.save (λ r. r.id) (to_row a) c.artifacts
    → IsServed d
IsServed-save a c d served new e = record {
  sound = IsSound-save a c d e new served.sound;
  texts =
      rw e (Tables.All-save (λ r. r.id) IsText (to_row a) c.artifacts (IsText-row a) served.texts);
}

-- The tables are as they were, or a complete artifact was saved into them.
data Step (c d : Db) : Type 0 where
  same : d.artifacts ≡ c.artifacts → Step c d
  saved :
      (a : Artifact)
      → IsComplete a
      → d.artifacts ≡ Tables.save (λ r. r.id) (to_row a) c.artifacts
      → Step c d

Step-of :
    {A : Type 0} {c : Db} {P : A → Session → Type 0} {out : Result A × Session}
    → Outcome P (Keeps c) out
    → ((a : A) (s : Session) → P a s → Step c s.committed)
    → Step c out.1.committed
Step-of (returned a s h) k = k a s h
Step-of (raised e s h) k = same (rw h refl)

IsServed-step : (c d : Db) → Step c d → IsServed c → IsServed d
unfolding IsSound
IsServed-step c d (same e) served = record { sound = rw e served.sound; texts = rw e served.texts }
IsServed-step c d (saved a new e) served = IsServed-save a c d served new e

module _ (sha256 : List ℕ → Codes) (show_uuid : ℕ → String)
    (write_content : String → List ℕ → Result (Unit {0})) where
  pub data Request : Type 0 where
    registers : RegisterArtifact → Request
    moves : Move → (artifact_id : ℕ) (correlation_id : Option ℕ) → Request
    uploads : UploadArtifact → Request
    links : RecordEdge → Request

  -- The session that a request leaves, whether it returned or raised.
  unfoldable pub after : Request → Session → Session
  after (registers cmd) s = (register_artifact cmd s).1
  after (moves m id cid) s = (serve m id cid s).1
  after (uploads u) s = (upload_artifact sha256 show_uuid write_content u s).1
  after (links r) s = (record_lineage_endpoint r s).1

  -- The sessions that come up from empty tables.
  pub data Reach : Session → Type 0 where
    start : (s : Session) → s.committed.artifacts ≡ [] → Reach s
    next : (r : Request) (s : Session) → Reach s → Reach (after r s)

  after-Step :
      (r : Request) (s : Session) → IsServed s.committed → Step s.committed (after r s).committed
  unfolding after
  after-Step (registers cmd) s served =
      Step-of (register_artifact-Outcome cmd s)
        (λ a t v. saved a (complete ArtifactStatus.pending v.pending v.no_checksum) v.artifacts)
  after-Step (moves m id cid) s served = Step-of (serve-Outcome id cid s m) (λ a t v.
      saved a (Moved-IsComplete s.committed t.committed id a served.sound v) v.saved.artifacts)
  after-Step (uploads u) s served =
      Step-of (upload_artifact-Outcome sha256 show_uuid write_content u s)
        (λ a t v. saved a v.is_complete v.persisted.artifacts)
  after-Step (links r) s served =
      Step-of (record_lineage_endpoint-Outcome r s) (λ e t v. same v.recorded.added.artifacts)

  -- Whatever has been requested, in whatever order and whether it raised or not: every stored artifact has
  -- on record what its status asks for, and its metadata are stored as a text.
  pub Reach-IsServed : (s : Session) → Reach s → IsServed s.committed
  unfolding IsSound
  Reach-IsServed s (start s' e) = record { sound = rw e tt; texts = rw e tt }
  Reach-IsServed s (next r s' p) =
      IsServed-step s'.committed (after r s').committed (after-Step r s' (Reach-IsServed s' p))
        (Reach-IsServed s' p)

fail_artifact-Outcome :
    (id : ℕ) (reason : Option String) (partial_data : Bool) (cid : Option ℕ) (s : Session)
    → All IsText s.committed.artifacts
    → Outcome (λ _ _. ⊥) (Keeps s.committed) (fail_artifact id reason partial_data cid s)
unfolding fail_artifact
fail_artifact-Outcome id reason partial_data cid s texts =
    service-Outcome (λ _ _. ⊥) cid _ s
      (λ k t f. Outcome-bind (require_artifact-Outcome s.committed id t f) (λ old u (found, f).
        Outcome-bind
          (lift-Fresh s.committed
            (Artifact.fail reason partial_data (u.clock u.reads) (u.clock (u.reads + 1)) old) _
            record { committed = f.committed; db = f.db })
          (λ (prev, a) v (failed, _).
            elim (Tables.All-find (λ r. r.id) IsText id old s.committed.artifacts texts found) [
              | is_text d e ↦
                  let clash =
                    sym failed
                    ∙ fail-dumped reason partial_data (u.clock u.reads) (u.clock (u.reads + 1)) old
                        d e in
                  cc
            ])))

Outcome-raises :
    {A : Type 0} {c : Db} {out : Result A × Session}
    → Outcome (λ _ _. ⊥) (Keeps c) out
    → (e : Error) × (out.0 ≡ err e) × (out.1.committed ≡ c)
Outcome-raises (returned a s h) = elim h [ ]
Outcome-raises (raised e s h) = (e, refl, h)

-- Whatever has been requested since the tables were empty, no artifact can be failed: the service raises
-- for every identifier and commits nothing, since the metadata that it reads back are a text and not a
-- mapping.
pub fail_artifact-raises :
    (sha256 : List ℕ → Codes) (show_uuid : ℕ → String)
    (write_content : String → List ℕ → Result (Unit {0})) (s : Session) (id : ℕ)
    (reason : Option String) (partial_data : Bool) (cid : Option ℕ)
    → Reach sha256 show_uuid write_content s
    → (e : Error) × ((fail_artifact id reason partial_data cid s).0 ≡ err e)
      × ((fail_artifact id reason partial_data cid s).1.committed ≡ s.committed)
fail_artifact-raises sha256 show_uuid write_content s id reason partial_data cid p =
    Outcome-raises (
      fail_artifact-Outcome id reason partial_data cid s
        (Reach-IsServed sha256 show_uuid write_content s p).texts)
