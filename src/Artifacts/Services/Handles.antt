-- ===== src/Artifacts/Services/Handles.antt =====
-- The services that move one artifact: nothing on failure, all on success.
use keviq_core.Prelude.{ℕ, ◌+◌, ◌≡◌, String, Bool, Option, some, Codes, ℤ}
use keviq_core.Prelude.Tables
use keviq_core.Errors.{raise_if, or_raise, ok, domain_validation}
use keviq_core.Transaction.Outcomes.{Outcome, Outcome-bind, Outcome-weaken}
use keviq_core.Artifacts.Artifact.{Artifact, ArtifactStatus}
use keviq_core.Artifacts.Artifact.Ready.{Call, begins, finalizes, fails, call}
use keviq_core.Artifacts.Events.{Draft}
use keviq_core.Artifacts.Store.{
  Db, Session, Tx, ◌>>=◌, ◌>>◌, lift, pure, commit, write, save_artifact,
}
use keviq_core.Artifacts.Services.{begin_writing, finalize_artifact, fail_artifact, is_ready}
use keviq_core.Artifacts.Services.Steps.{
  Keeps, Fresh, lift-Fresh, Saved, require_artifact-Outcome, get_provenance-Outcome, settle-Outcome,
  service-Outcome,
}

-- A service that moves an artifact, with its arguments.
pub data Move : Type 0 where
  begins_writing : (storage_ref : String) → Move
  finalizes_artifact : (checksum : Codes) (size_bytes : ℤ) → Move
  fails_artifact : (failure_reason : Option String) (partial_data : Bool) → Move

unfoldable pub serve : Move → (artifact_id : ℕ) (correlation_id : Option ℕ) → Tx Artifact
serve (begins_writing ref) id cid = begin_writing id ref cid
serve (finalizes_artifact sum size) id cid = finalize_artifact id sum size cid
serve (fails_artifact reason partial_data) id cid = fail_artifact id reason partial_data cid

-- The stored artifact was moved by one call of its methods, and its row is what was returned.
pub record Moved (c : Db) (id : ℕ) (a : Artifact) (d : Db) : Type 0 where
  pub old : Artifact
  pub found : Tables.find (λ r. r.id) id c.artifacts ≡ some old
  pub by : Call
  pub prev : ArtifactStatus
  pub moved : call by old ≡ ok (prev, a)
  pub saved : Saved a c d

move-Outcome :
    (c : Db) (id : ℕ) (by : Call) (old : Artifact) (draft : Artifact → Draft) (s : Session)
    → Tables.find (λ r. r.id) id c.artifacts ≡ some old
    → Fresh c s
    → Outcome
        (λ a s'. Moved c id a s'.committed)
        (Keeps c)
        ((do
          (_, moved) ← lift (call by old)
          save_artifact moved
          write (draft moved)
          commit
          pure moved)
          s)
move-Outcome c id by old draft s found f =
    Outcome-bind (lift-Fresh c (call by old) s f) (λ (prev, a) t (e, f).
      Outcome-weaken (settle-Outcome c a (draft a) t f) (λ b u (same, saved).
        rw same
          record { old = old; found = found; by = by; prev = prev; moved = e; saved = saved }))

module _ (id : ℕ) (cid : Option ℕ) (s : Session) where
  pub begin_writing-Outcome :
      (ref : String)
      → Outcome
          (λ a s'. Moved s.committed id a s'.committed)
          (Keeps s.committed)
          (begin_writing id ref cid s)
  unfolding begin_writing call
  begin_writing-Outcome ref = service-Outcome (Moved s.committed id) cid _ s (λ k t f.
      Outcome-bind (require_artifact-Outcome s.committed id t f) (λ old u (found, f).
        move-Outcome s.committed id (begins ref (u.clock u.reads)) old _ _ found
          record { committed = f.committed; db = f.db }))

  pub fail_artifact-Outcome :
      (reason : Option String) (partial_data : Bool)
      → Outcome
          (λ a s'. Moved s.committed id a s'.committed)
          (Keeps s.committed)
          (fail_artifact id reason partial_data cid s)
  unfolding fail_artifact call
  fail_artifact-Outcome reason partial_data =
      service-Outcome (Moved s.committed id) cid _ s (λ k t f.
        Outcome-bind (require_artifact-Outcome s.committed id t f) (λ old u (found, f).
          move-Outcome s.committed id
            (fails reason partial_data (u.clock u.reads) (u.clock (u.reads + 1))) old _ _ found
            record { committed = f.committed; db = f.db }))

  pub finalize_artifact-Outcome :
      (sum : Codes) (size : ℤ)
      → Outcome
          (λ a s'. Moved s.committed id a s'.committed)
          (Keeps s.committed)
          (finalize_artifact id sum size cid s)
  unfolding finalize_artifact call
  finalize_artifact-Outcome sum size = service-Outcome (Moved s.committed id) cid _ s (λ k t f.
      Outcome-bind (require_artifact-Outcome s.committed id t f) (λ old u (found, f).
        Outcome-bind
          (lift-Fresh s.committed (raise_if (is_ready old.artifact_status) domain_validation) u f)
          (λ _ v (_, f). Outcome-bind (get_provenance-Outcome s.committed id v f) (λ q w f.
            Outcome-bind (lift-Fresh s.committed (or_raise q domain_validation) w f) (λ p x (_, f).
              move-Outcome s.committed id
                (finalizes sum size p (x.clock x.reads) (x.clock (x.reads + 1))) old _ _ found
                record { committed = f.committed; db = f.db })))))

  -- A service that raises, at whatever point, commits nothing. One that returns an artifact has
  -- committed it: the stored artifact was moved by one call of its methods that was accepted, its row is
  -- overwritten with the result, one event is added, and nothing else has changed.
  pub serve-Outcome :
      (m : Move)
      → Outcome (λ a s'. Moved s.committed id a s'.committed) (Keeps s.committed) (serve m id cid s)
  unfolding serve
  serve-Outcome (begins_writing ref) = begin_writing-Outcome ref
  serve-Outcome (finalizes_artifact sum size) = finalize_artifact-Outcome sum size
  serve-Outcome (fails_artifact reason partial_data) = fail_artifact-Outcome reason partial_data
