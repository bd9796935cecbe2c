-- ===== src/Sandboxes/Execution/Claims.antt =====
-- When a sandbox is claimed for an execution, and what is committed then.
use keviq_core.Prelude.{
  ℕ, ◌+◌, length, length-snoc, ◌≡◌, refl, ap, ◌∙◌, true, false, some, Bool-cases, Option-cases, inl,
  inr, arith,
}
use keviq_core.Prelude.Tables
use keviq_core.Transaction.Outcomes.{Outcome, returned, raised}
use keviq_core.Sandboxes.Sandbox
use keviq_core.Sandboxes.Sandbox.{Sandbox, SandboxStatus, executing, idle, ready}
use keviq_core.Sandboxes.Store.{
  Db, Session, claimable, upsert, refused, save, get_by_id, claim_for_execution, save_attempt,
  with_uow, write, commit,
}
use keviq_core.Sandboxes.Tools.{ToolDefinition}
use keviq_core.Sandboxes.Execution.{Request, started, refuse_type, claim}

-- The sandbox once it is claimed.
abbrev pub claimed : ℕ → Sandbox → Sandbox
claimed now b = record b { sandbox_status = executing; updated_at = now }

-- `b` is the sandbox that was stored as ready or idle, now executing, and it is committed with the
-- attempt's record.
pub record Claimed (q : Request) (tool : ToolDefinition) (execution_id start : ℕ) (c : Db)
    (b : Sandbox) (s : Session) : Type 0 where
  pub before : Sandbox
  pub found : Tables.find (λ r. r.id) q.sandbox_id c.sandboxes ≡ some before
  pub was_free : claimable before.sandbox_status ≡ true
  pub allowed : tool.allowed_sandbox_types before.sandbox_type ≡ true
  pub is_claimed : b ≡ claimed b.updated_at before
  pub sandboxes : s.committed.sandboxes ≡ Tables.save (λ r. r.id) b c.sandboxes
  pub attempts : s.committed.attempts ≡ upsert (started execution_id start q) c.attempts
  pub outbox : length s.committed.outbox ≡ length c.outbox + 1

-- The calls that were made are no part of it.
pub Claimed-same :
    (q : Request) (tool : ToolDefinition) (execution_id start : ℕ) (c : Db) (b : Sandbox)
    (u v : Session)
    → v.committed ≡ u.committed
    → Claimed q tool execution_id start c b u
    → Claimed q tool execution_id start c b v
Claimed-same q tool execution_id start c b u v e h = record {
  before = h.before;
  found = h.found;
  was_free = h.was_free;
  allowed = h.allowed;
  is_claimed = h.is_claimed;
  sandboxes = ap (λ d. d.sandboxes) e ∙ h.sandboxes;
  attempts = ap (λ d. d.attempts) e ∙ h.attempts;
  outbox = ap (λ d. length d.outbox) e ∙ h.outbox;
}

-- Nothing was committed, and no backend was asked.
pub record Refused (before : Session) (s : Session) : Type 0 where
  pub committed : s.committed ≡ before.committed
  pub port_calls : s.port_calls ≡ before.port_calls

pub claim-Outcome :
    (q : Request) (tool : ToolDefinition) (execution_id correlation_id start : ℕ) (s : Session)
    → Outcome
        (λ b s'.
          Claimed q tool execution_id start s.committed b s' × (s'.port_calls ≡ s.port_calls))
        (Refused s)
        (claim q tool execution_id correlation_id start s)
unfolding claim with_uow claim_for_execution get_by_id save refuse_type save_attempt write commit
claim-Outcome q tool execution_id correlation_id start s =
    elim (Option-cases (Tables.find (λ r. r.id) q.sandbox_id s.committed.sandboxes)) [
      | inl missing ↦ rw missing (raised _ _ record { committed = refl; port_calls = refl })
      | inr (b, found) ↦ elim (Bool-cases (claimable b.sandbox_status)) [
        | inr busy ↦ rw (found, busy) (raised _ _ record { committed = refl; port_calls = refl })
        | inl was_free ↦
            let alive : Sandbox.sandbox_terminal b.sandbox_status ≡ false =
              ground (arith, was_free) in
            let live : Sandbox.sandbox_transitions b.sandbox_status executing ≡ true =
              ground (arith, was_free) in
            let claimed_b = claimed (s.clock s.reads) b in
            elim (Bool-cases (tool.allowed_sandbox_types b.sandbox_type)) [
              | inr barred ↦
                  rw (found, was_free, alive, live, barred)
                    (raised _ _ record { committed = refl; port_calls = refl })
              | inl allowed ↦
                  let mid = record s.committed {
                    sandboxes = Tables.save (λ r. r.id) claimed_b s.committed.sandboxes;
                  } in
                  elim (Bool-cases (refused (started execution_id start q) mid)) [
                    | inl clash ↦
                        rw (found, was_free, alive, live, allowed, clash)
                          (raised _ _ record { committed = refl; port_calls = refl })
                    | inr fresh ↦
                        rw (found, was_free, alive, live, allowed, fresh)
                          (returned _ _ (
                            record {
                              before = b;
                              found = found;
                              was_free = was_free;
                              allowed = allowed;
                              is_claimed = refl;
                              sandboxes = refl;
                              attempts = refl;
                              outbox = length-snoc s.committed.outbox _;
                            },
                            refl,
                          ))
                  ]
            ]
      ]
    ]
