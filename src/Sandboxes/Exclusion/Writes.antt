-- ===== src/Sandboxes/Exclusion/Writes.antt =====
-- What a transaction does to the row of a sandbox that cannot be claimed.
use keviq_core.Prelude.{
  ℕ, ◌==◌, ◌≡◌, refl, ◌∙◌, false, Option, some, List, Bool-cases, Option-cases, inl, inr, arith,
}
use keviq_core.Prelude.Tables
use keviq_core.Sandboxes.Sandbox
use keviq_core.Sandboxes.Sandbox.{Sandbox, terminating}
use keviq_core.Sandboxes.Contracts.{SandboxTerminationRequest}
use keviq_core.Sandboxes.Store.{Db, Session, Payload, claimable}
use keviq_core.Sandboxes.Provisioning.{persist, begin_termination}
use keviq_core.Sandboxes.Recovery.Sweeps.{Row, same, marked, Swept}

-- The sandbox exists and cannot be claimed.
pub record IsBusy (id : ℕ) (rows : List Sandbox) : Type 0 where
  pub sandbox : Sandbox
  pub found : Tables.find (λ r. r.id) id rows ≡ some sandbox
  pub is_busy : claimable sandbox.sandbox_status ≡ false

pub IsBusy-save_self :
    (b : Sandbox) (rows : List Sandbox)
    → claimable b.sandbox_status ≡ false
    → IsBusy b.id (Tables.save (λ r. r.id) b rows)
IsBusy-save_self b rows h = record {
  sandbox = b;
  found = Tables.find-save_self (λ r. r.id) b.id b rows refl;
  is_busy = h;
}

pub IsBusy-save_other :
    (id : ℕ) (b : Sandbox) (rows : List Sandbox)
    → (b.id == id) ≡ false
    → IsBusy id rows
    → IsBusy id (Tables.save (λ r. r.id) b rows)
IsBusy-save_other id b rows other h = record {
  sandbox = h.sandbox;
  found = Tables.find-save (λ r. r.id) id b rows ∙ rw other h.found;
  is_busy = h.is_busy;
}

pub IsBusy-save :
    (id : ℕ) (b : Sandbox) (rows : List Sandbox)
    → claimable b.sandbox_status ≡ false
    → IsBusy id rows
    → IsBusy id (Tables.save (λ r. r.id) b rows)
IsBusy-save id b rows h k = elim (Bool-cases (b.id == id)) [
  | inl here ↦ record {
    sandbox = b;
    found = Tables.find-save (λ r. r.id) id b rows ∙ rw here;
    is_busy = h;
  }
  | inr there ↦ IsBusy-save_other id b rows there k
]

Row-busy :
    (o p : Option Sandbox) (b : Sandbox)
    → Row o p
    → o ≡ some b
    → claimable b.sandbox_status ≡ false
    → (b' : Sandbox) × (p ≡ some b') × (claimable b'.sandbox_status ≡ false)
Row-busy o _ b same e h = (b, e, h)
Row-busy o _ b (marked a a' _ _ f) e h = (a', refl, ground (arith, f))

pub IsBusy-Swept : (id : ℕ) (c d : Db) → Swept c d → IsBusy id c.sandboxes → IsBusy id d.sandboxes
IsBusy-Swept id c d swept h =
    let (b, found, busy) = Row-busy _ _ h.sandbox (swept.rows id) h.found h.is_busy in
    record { sandbox = b; found = found; is_busy = busy }

pub persist-sandboxes :
    (b : Sandbox) (payload : Payload) (correlation_id : ℕ) (s : Session)
    → (persist b payload correlation_id s).1.committed.sandboxes
      ≡ Tables.save (λ r. r.id) b s.committed.sandboxes
unfolding persist
persist-sandboxes b payload correlation_id s = refl

-- The tables are as they were, or one sandbox was saved that cannot be claimed.
pub data Wrote (c d : List Sandbox) : Type 0 where
  nothing : d ≡ c → Wrote c d
  busy :
      (b : Sandbox)
      → claimable b.sandbox_status ≡ false
      → d ≡ Tables.save (λ r. r.id) b c
      → Wrote c d

pub IsBusy-Wrote : (id : ℕ) (c d : List Sandbox) → Wrote c d → IsBusy id c → IsBusy id d
IsBusy-Wrote id c d (nothing e) h = rw e h
IsBusy-Wrote id c d (busy b k e) h = rw e (IsBusy-save id b c k h)

pub begin_termination-Wrote :
    (r : SandboxTerminationRequest) (correlation_id : ℕ) (s : Session)
    → Wrote s.committed.sandboxes (begin_termination r correlation_id s).1.committed.sandboxes
unfolding begin_termination
begin_termination-Wrote r correlation_id s =
    elim (Option-cases (Tables.find (λ r. r.id) r.sandbox_id s.committed.sandboxes)) [
      | inl missing ↦ rw missing (nothing refl)
      | inr (b, found) ↦ elim (Bool-cases (Sandbox.sandbox_terminal b.sandbox_status)) [
        | inl over ↦ rw (found, over) (nothing refl)
        | inr alive ↦ elim (Bool-cases (Sandbox.sandbox_transitions b.sandbox_status terminating)) [
          | inr barred ↦ rw (found, alive, barred) (nothing refl)
          | inl live ↦ rw (found, alive, live) (busy _ refl refl)
        ]
      ]
    ]
