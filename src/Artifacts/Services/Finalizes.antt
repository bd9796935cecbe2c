-- ===== src/Artifacts/Services/Finalizes.antt =====
-- When `finalize_artifact` returns.
use keviq_core.Prelude.{
  ℕ, ◌+◌, ◌≡◌, refl, ap, ◌∙◌, false, Option, none, some, List, [], ◌∷◌, Codes, ℤ, lower,
}
use keviq_core.Prelude.Tables
use keviq_core.Errors.{ok, Result, raise_if, or_raise, domain_validation}
use keviq_core.Transaction.Returns.{Returns, returned, Returns-step, Returns-close}
use keviq_core.Artifacts.Artifact.{Artifact, writing, ready, validate, check_final, finalize}
use keviq_core.Artifacts.Provenance
use keviq_core.Artifacts.Provenance.{Provenance}
use keviq_core.Artifacts.Events.{Draft, artifact_ready_event}
use keviq_core.Artifacts.Store.{
  Session, invocation_taken, save_artifact, get_provenance, to_row, write, load, with_uow, commit,
  ◌>>=◌, ◌>>◌, pure, lift, now,
}
use keviq_core.Artifacts.Services.{
  finalize_artifact, correlate, require_artifact, is_ready, checksum_of,
}
use keviq_core.Artifacts.Services.Steps.{require_artifact-found}

-- Only the identifiers count for a clash.
invocation_taken_same :
    (a b : Artifact) (rows : List Artifact)
    → a.id ≡ b.id
    → a.agent_invocation_id ≡ b.agent_invocation_id
    → invocation_taken a rows ≡ invocation_taken b rows
unfolding invocation_taken
invocation_taken_same a b [] e f = refl
invocation_taken_same a b (x ∷ rows) e f = rw (e, f, invocation_taken_same a b rows e f) refl

-- The artifact as `finalize` leaves it.
abbrev finalized : Codes → ℤ → (now now' : ℕ) → Artifact → Artifact
finalized sum size now now' a = record a {
  artifact_status = ready;
  updated_at = now;
  checksum = some (lower sum);
  size_bytes = some size;
  ready_at = some now';
}

finalize-writing :
    (sum : Codes) (size : ℤ) (p : Provenance) (now now' : ℕ) (a : Artifact)
    → a.artifact_status ≡ writing
    → check_final sum size p a ≡ ok tt
    → finalize sum size p now now' a ≡ ok (writing, finalized sum size now now' a)
unfolding finalize
finalize-writing sum size p now now' a w c = rw (c, w) refl

-- The artifact of that identifier is committed as ready, with the checksum in lower case.
pub IsFinal : Session → ℕ → Codes → ℤ → Type 0
IsFinal s id sum size =
    (a : Artifact) × (Tables.find (λ r. r.id) id s.committed.artifacts ≡ some a)
    × (a.artifact_status ≡ ready)
    × (a.checksum ≡ some (lower sum))
    × (a.size_bytes ≡ some size)

load-kept :
    {A : Type 0} (make : A → Result A) (o : Option A) (a : A)
    → o ≡ some a
    → make a ≡ ok a
    → load make o ≡ ok (some a)
load-kept make o a e k = ap (load make) e ∙ rw (k, load) refl

module _ (id : ℕ) (sum : Codes) (size : ℤ) (a : Artifact) (p : Provenance)
    (w : a.artifact_status ≡ writing) (valid : validate a ≡ ok a)
    (concrete : Provenance.post_init p ≡ ok p) (checked : check_final sum size p a ≡ ok tt) where
  require_artifact-is :
      (s : Session)
      → Tables.find (λ r. r.id) id s.db.artifacts ≡ some a
      → require_artifact id s ≡ (ok a, s)
  require_artifact-is s found = require_artifact-found id s a found ∙ rw valid refl

  get_provenance-is :
      (s : Session)
      → Tables.find (λ r. r.artifact_id) id s.db.provenance ≡ some p
      → get_provenance id s ≡ (ok (some p), s)
  unfolding get_provenance Provenance.post_init
  get_provenance-is s has_p = ap (λ r. (r, s)) (load-kept Provenance.post_init _ p has_p concrete)

  stored-Returns :
      (s : Session) (now now' : ℕ)
      → a.id ≡ id
      → invocation_taken a s.db.artifacts ≡ false
      → (draft : Draft)
      → let b = finalized sum size now now' a in
        Returns
          (λ _ s'. IsFinal s' id sum size)
          ((do save_artifact b; write draft; commit; pure b) s)
  unfolding save_artifact write commit IsFinal
  stored-Returns s now now' same free draft =
      let b = finalized sum size now now' a in
      let clear = invocation_taken_same b a s.db.artifacts refl refl ∙ free in
      rw (clear, save_artifact)
        (returned _ _ (
          to_row b,
          Tables.find-save_self (λ r. r.id) id (to_row b) s.db.artifacts same,
          refl,
          refl,
          refl,
        ))

  in_transaction-Returns :
      (cid : ℕ) (s : Session)
      → a.id ≡ id
      → Tables.find (λ r. r.id) id s.db.artifacts ≡ some a
      → Tables.find (λ r. r.artifact_id) id s.db.provenance ≡ some p
      → invocation_taken a s.db.artifacts ≡ false
      → Returns
          (λ _ s'. IsFinal s' id sum size)
          ((do
            artifact ← require_artifact id
            lift (raise_if (is_ready artifact.artifact_status) domain_validation)
            found ← get_provenance id
            provenance ← lift (or_raise found domain_validation)
            updated ← now
            finished ← now
            (_, moved) ← lift (finalize sum size provenance updated finished artifact)
            save_artifact moved
            write (
                artifact_ready_event moved.id moved.workspace_id cid
                  (checksum_of moved.checksum)
                  size)
            commit
            pure moved)
            s)
  in_transaction-Returns cid s same found has_p free =
      Returns-step _ a s (require_artifact-is s found) (
        Returns-step _ tt s (ap (λ st. (raise_if (is_ready st) domain_validation, s)) w) (
          Returns-step _ (some p) s (get_provenance-is s has_p) (
            let t = record s { reads = s.reads + 1 + 1 } in
            Returns-step _ (writing, _) t
              (ap (λ r. (r, t)) (finalize-writing sum size p _ _ a w checked))
              (stored-Returns t _ _ same free _))))

-- A stored artifact that is being written, whose checksum, size and stored provenance pass the checks of
-- finalize, whose row and provenance load and whose invocation no other row has, is finalized:
-- finalize_artifact returns and has committed it as ready, with the size and the checksum in lower case.
pub finalize_artifact-Returns :
    (id : ℕ) (sum : Codes) (size : ℤ) (correlation_id : Option ℕ) (a : Artifact) (p : Provenance)
    (s : Session)
    → a.artifact_status ≡ writing
    → validate a ≡ ok a
    → Provenance.post_init p ≡ ok p
    → check_final sum size p a ≡ ok tt
    → a.id ≡ id
    → Tables.find (λ r. r.id) id s.committed.artifacts ≡ some a
    → Tables.find (λ r. r.artifact_id) id s.committed.provenance ≡ some p
    → invocation_taken a s.committed.artifacts ≡ false
    → Returns (λ _ s'. IsFinal s' id sum size) (finalize_artifact id sum size correlation_id s)
unfolding finalize_artifact with_uow correlate IsFinal
finalize_artifact-Returns id sum size none a p s w valid concrete checked same found has_p free =
    Returns-close
      (in_transaction-Returns id sum size a p w valid concrete checked _ _ same found has_p free)
      (λ _ s' final. final)
finalize_artifact-Returns id sum size (some cid) a p s w valid concrete checked same found has_p
      free =
    Returns-close
      (in_transaction-Returns id sum size a p w valid concrete checked cid _ same found has_p free)
      (λ _ s' final. final)
