-- ===== src/Sandboxes/Execution/Settles.antt =====
-- What is on record once an execution has ended.
use keviq_core.Prelude.{
  ℕ, ◌+◌, length, length-snoc, ◌≡◌, ◌⊎◌, refl, true, none, some, Bool-cases, Option-cases, inl, inr,
  arith, String, ℤ,
}
use keviq_core.Prelude.Tables
use keviq_core.Transaction.Outcomes.{Outcome, returned, raised, Outcome-bind}
use keviq_core.Sandboxes.Sandbox
use keviq_core.Sandboxes.Sandbox.{Sandbox, SandboxStatus, executing, idle}
use keviq_core.Sandboxes.Contracts.{ToolExecutionResult, value}
use keviq_core.Sandboxes.Store.{
  Db, Session, AttemptData, Payload, upsert, refused, save, get_by_id, save_attempt, with_uow,
  write, commit,
}
use keviq_core.Sandboxes.Execution.{
  Request, Reply, replied, ran_out, broke, release, settle, record_failure, record_outcome,
  after_command,
}

-- The sandbox once it is released.
abbrev pub released : ℕ → Sandbox → Sandbox
released now b = record b { sandbox_status = idle; updated_at = now }

-- In the tables `c` the sandbox was executing and it is idle now, or there was none; the attempt is on
-- record as `d` has it.
pub record Settled (q : Request) (d : AttemptData) (c : Db) (s : Session) : Type 0 where
  pub sandboxes :
      ((Tables.find (λ r. r.id) q.sandbox_id c.sandboxes ≡ none)
        × (s.committed.sandboxes ≡ c.sandboxes))
      ⊎ ((b : Sandbox) × (now : ℕ) × (Tables.find (λ r. r.id) q.sandbox_id c.sandboxes ≡ some b)
          × (b.sandbox_status ≡ executing)
          × (s.committed.sandboxes ≡ Tables.save (λ r. r.id) (released now b) c.sandboxes))
  pub attempts : s.committed.attempts ≡ upsert d c.attempts
  pub outbox : length s.committed.outbox ≡ length c.outbox + 1

-- Only an executing sandbox becomes idle.
pub only_executing :
    (status : SandboxStatus) → Sandbox.sandbox_transitions status idle ≡ true → status ≡ executing
only_executing status h = ground (arith, h)

pub settle-Outcome :
    (q : Request) (workspace_id correlation_id : ℕ) (d : AttemptData) (payload : Payload)
    (s : Session)
    → Outcome
        (λ _ s'. Settled q d s.committed s')
        (λ s'. s'.committed ≡ s.committed)
        (settle q workspace_id correlation_id d payload s)
unfolding settle with_uow get_by_id release save save_attempt write commit
settle-Outcome q workspace_id correlation_id d payload s =
    elim (Option-cases (Tables.find (λ r. r.id) q.sandbox_id s.committed.sandboxes)) [
      | inl missing ↦ elim (Bool-cases (refused d s.committed)) [
        | inl clash ↦ rw (missing, clash) (raised _ _ refl)
        | inr fresh ↦
            rw (missing, fresh)
              (returned _ _ record {
                sandboxes = inl (missing, refl);
                attempts = refl;
                outbox = length-snoc s.committed.outbox _;
              })
      ]
      | inr (b, found) ↦ elim (Bool-cases (Sandbox.sandbox_terminal b.sandbox_status)) [
        | inl over ↦ rw (found, over) (raised _ _ refl)
        | inr alive ↦ elim (Bool-cases (Sandbox.sandbox_transitions b.sandbox_status idle)) [
          | inr stopped ↦ rw (found, alive, stopped) (raised _ _ refl)
          | inl runs ↦
              let free = released (s.clock s.reads) b in
              let mid = record s.committed {
                sandboxes = Tables.save (λ r. r.id) free s.committed.sandboxes;
              } in
              elim (Bool-cases (refused d mid)) [
                | inl clash ↦ rw (found, alive, runs, clash) (raised _ _ refl)
                | inr fresh ↦
                    rw (found, alive, runs, fresh)
                      (returned _ _ record {
                        sandboxes =
                            inr (
                              b,
                              s.clock s.reads,
                              found,
                              only_executing b.sandbox_status runs,
                              refl,
                            );
                        attempts = refl;
                        outbox = length-snoc s.committed.outbox _;
                      })
              ]
        ]
      ]
    ]

-- A finished attempt's record, whichever way it ended, and what the caller is told of it.
pub record Reported (q : Request) (execution_id : ℕ) (d : AttemptData) (a : ToolExecutionResult)
    : Type 0 where
  pub id : d.id ≡ execution_id
  pub sandbox_id : (d.sandbox_id ≡ q.sandbox_id) × (a.sandbox_id ≡ q.sandbox_id)
  pub attempt_index : (d.attempt_index ≡ q.attempt_index) × (a.attempt_index ≡ q.attempt_index)
  pub status : d.status ≡ value a.status
  pub exit_code : d.exit_code ≡ a.exit_code

module _ (show_integer : ℤ → String) (timeout_message : ℕ → String) where
  pub after_command-Outcome :
      (q : Request) (execution_id workspace_id correlation_id : ℕ) (reply : Reply) (s : Session)
      → Outcome
          (λ a s'. (d : AttemptData) × Reported q execution_id d a × Settled q d s.committed s')
          (λ s'. s'.committed ≡ s.committed)
          (after_command show_integer timeout_message execution_id q workspace_id correlation_id
            reply s)
  unfolding after_command record_outcome record_failure
  after_command-Outcome q execution_id workspace_id correlation_id (replied r) s =
      Outcome-bind
        (settle-Outcome q workspace_id correlation_id _ _ (record s { reads = s.reads + 1 }))
        (λ _ t settled. returned _ _ (
          _,
          record {
            id = refl;
            sandbox_id = (refl, refl);
            attempt_index = (refl, refl);
            status = refl;
            exit_code = refl;
          },
          settled,
        ))
  after_command-Outcome q execution_id workspace_id correlation_id ran_out s =
      Outcome-bind
        (settle-Outcome q workspace_id correlation_id _ _ (record s { reads = s.reads + 1 }))
        (λ _ t settled. returned _ _ (
          _,
          record {
            id = refl;
            sandbox_id = (refl, refl);
            attempt_index = (refl, refl);
            status = refl;
            exit_code = refl;
          },
          settled,
        ))
  after_command-Outcome q execution_id workspace_id correlation_id (broke message) s =
      Outcome-bind
        (settle-Outcome q workspace_id correlation_id _ _ (record s { reads = s.reads + 1 }))
        (λ _ t settled. returned _ _ (
          _,
          record {
            id = refl;
            sandbox_id = (refl, refl);
            attempt_index = (refl, refl);
            status = refl;
            exit_code = refl;
          },
          settled,
        ))
