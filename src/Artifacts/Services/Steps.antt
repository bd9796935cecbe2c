-- ===== src/Artifacts/Services/Steps.antt =====
-- What the services do again and again, with what it leaves in the tables.
use keviq_core.Prelude.{
  ℕ, ◌+◌, ◌≡◌, refl, sym, ap, ◌∙◌, Option, none, some, length, length-snoc, Bool-cases,
  Option-cases, arith, inl, inr,
}
use keviq_core.Prelude.Tables
use keviq_core.Errors.{Result, ok, Result-cases}
use keviq_core.Transaction.Outcomes.{
  Outcome, returned, raised, Outcome-bind, Outcome-lift, Outcome-weaken, Outcome-close,
}
use keviq_core.Artifacts.Artifact.{Artifact, validate}
use keviq_core.Artifacts.Events.{Draft}
use keviq_core.Artifacts.Store.{
  Db, Session, Tx, ◌>>=◌, ◌>>◌, pure, commit, save_artifact, get_artifact, get_provenance,
  invocation_taken, to_row, write, with_uow,
}
use keviq_core.Artifacts.Services.{correlate, require_artifact}

-- Nothing is committed but `c`.
abbrev pub Keeps : Db → Session → Type 0
Keeps c s = s.committed ≡ c

-- Nothing is committed but `c`, and nothing else is in the tables.
pub record Fresh (c : Db) (s : Session) : Type 0 where
  pub committed : s.committed ≡ c
  pub db : s.db ≡ c

-- The row of the artifact is written, one event is added, and nothing else has changed.
pub record Saved (a : Artifact) (c d : Db) : Type 0 where
  pub artifacts : d.artifacts ≡ Tables.save (λ r. r.id) (to_row a) c.artifacts
  pub provenance : d.provenance ≡ c.provenance
  pub edges : d.edges ≡ c.edges
  pub outbox : length d.outbox ≡ length c.outbox + 1

pub lift-Fresh :
    {A : Type 0} (c : Db) (r : Result A) (s : Session)
    → Fresh c s
    → Outcome (λ a s'. (r ≡ ok a) × Fresh c s') (Keeps c) (r, s)
lift-Fresh c r s f = Outcome-lift {P = Fresh c} r s f (λ f. f.committed)

pub correlate-Outcome :
    (o : Option ℕ) (s : Session)
    → Outcome (λ _ s'. Keeps s.committed s') (Keeps s.committed) (correlate o s)
unfolding correlate
correlate-Outcome none s = returned _ _ refl
correlate-Outcome (some cid) s = returned _ _ refl

pub validate-same : (a b : Artifact) → validate a ≡ ok b → b ≡ a
unfolding validate
validate-same a b h = ground (arith, h)

pub require_artifact-found :
    (id : ℕ) (s : Session) (a : Artifact)
    → Tables.find (λ r. r.id) id s.db.artifacts ≡ some a
    → require_artifact id s ≡ (validate a, s)
unfolding require_artifact get_artifact validate
require_artifact-found id s a h = ground (arith, h)

pub require_artifact-Outcome :
    (c : Db) (id : ℕ) (s : Session)
    → Fresh c s
    → Outcome
        (λ a s'. (Tables.find (λ r. r.id) id c.artifacts ≡ some a) × Fresh c s')
        (Keeps c)
        (require_artifact id s)
unfolding require_artifact get_artifact
require_artifact-Outcome c id s h =
    elim (Option-cases (Tables.find (λ r. r.id) id s.db.artifacts)) [
      | inl missing ↦ rw (missing, require_artifact, get_artifact) (raised _ _ h.committed)
      | inr (a, found) ↦
          rw (require_artifact-found id s a found) (elim (Result-cases (validate a)) [
            | inl (b, valid) ↦ rw valid (
                returned _ _ (
                  ap (λ d. Tables.find (λ r. r.id) id d.artifacts) (sym h.db)
                      ∙ found
                      ∙ ap some (sym (validate-same a b valid)),
                  h,
                ))
            | inr (e, invalid) ↦ rw invalid (raised _ _ h.committed)
          ])
    ]

pub get_provenance-Outcome :
    (c : Db) (id : ℕ) (s : Session)
    → Fresh c s
    → Outcome (λ _ s'. Fresh c s') (Keeps c) (get_provenance id s)
unfolding get_provenance
get_provenance-Outcome c id s h =
    Outcome-weaken (lift-Fresh c (get_provenance id s).0 s h) (λ p t (_, f). f)

-- `save`, `write`, `commit`
pub settle-Outcome :
    (c : Db) (a : Artifact) (draft : Draft) (s : Session)
    → Fresh c s
    → Outcome
        (λ b s'. (b ≡ a) × Saved a c s'.committed)
        (Keeps c)
        ((do save_artifact a; write draft; commit; pure a) s)
unfolding save_artifact write commit
settle-Outcome c a draft s h = elim (Bool-cases (invocation_taken a s.db.artifacts)) [
  | inl taken ↦ rw (taken, save_artifact) (raised _ _ h.committed)
  | inr free ↦
      rw (free, save_artifact)
        (returned _ _ (
          refl,
          record {
            artifacts = ap (λ d. Tables.save (λ r. r.id) (to_row a) d.artifacts) h.db;
            provenance = ap (λ d. d.provenance) h.db;
            edges = ap (λ d. d.edges) h.db;
            outbox = length-snoc s.db.outbox _ ∙ ap (λ d. length d.outbox + 1) h.db;
          },
        ))
]

-- A service: an identifier for the correlation, then one transaction.
pub service-Outcome :
    {A : Type 0} (P : A → Db → Type 0) (o : Option ℕ) (body : ℕ → Tx A) (s : Session)
    → ((cid : ℕ) (t : Session)
        → Fresh s.committed t
        → Outcome (λ a s'. P a s'.committed) (Keeps s.committed) (body cid t))
    → Outcome
        (λ a s'. P a s'.committed)
        (Keeps s.committed)
        ((do cid ← correlate o; with_uow (body cid)) s)
unfolding with_uow
service-Outcome P o body s h = Outcome-bind (correlate-Outcome o s) (λ cid t k.
    Outcome-close (h cid (record t { db = t.committed }) record { committed = k; db = k })
      (λ a s' q. q) (λ s' e. e))
