-- ===== src/Sandboxes/Execution/Repeated.antt =====
-- An attempt index that is used again. agent-runtime numbers its attempts by turns, and a turn may call
-- several tools in one sandbox.
use keviq_core.Prelude.{ℕ, ◌+◌, ◌≡◌, ap, ◌∙◌, String, List, some, none, ℤ, inl, inr}
use keviq_core.Prelude.Tables
use keviq_core.Errors.{domain_error, err}
use keviq_core.Transaction.Outcomes.{Outcome-either}
use keviq_core.Sandboxes.Store.{Session, Attempt, find_attempt, upsert, get_attempt, with_uow}
use keviq_core.Sandboxes.Store.Attempts.{written, find_attempt-upsert, find-upsert_old}
use keviq_core.Sandboxes.Execution.{Request, Reply, started, execute_tool, get_execution}
use keviq_core.Sandboxes.Execution.Ends.{Run, execute_tool-Outcome}

-- Some attempt has the index, and no attempt has the identifier.
record IsTaken (q : Request) (id : ℕ) (rows : List Attempt) : Type 0 where
  pub old : Attempt
  pub taken : find_attempt q.sandbox_id q.attempt_index rows ≡ some old
  pub fresh : Tables.find (λ r. r.id) id rows ≡ none

get_execution-missing :
    (id : ℕ) (s : Session)
    → Tables.find (λ r. r.id) id s.committed.attempts ≡ none
    → (get_execution id s).0 ≡ err domain_error
unfolding get_execution get_attempt with_uow
get_execution-missing id s h = rw h

module _ (show_integer : ℤ → String) (timeout_message : ℕ → String)
    (exec_in_sandbox : ℕ → List String → ℕ → Session → Reply × Session) where
  Run-IsTaken :
      (q : Request) (s t : Session)
      → ((command : List String) (timeout_s : ℕ) (u : Session)
          → (exec_in_sandbox q.sandbox_id command timeout_s u).1.committed.attempts
            ≡ u.committed.attempts)
      → IsTaken q (s.uuids (s.draws + 1)) s.committed.attempts
      → Run show_integer timeout_message exec_in_sandbox q s t
      → IsTaken q (s.uuids (s.draws + 1)) t.committed.attempts
  Run-IsTaken q s t kept before run =
      let d = started (s.uuids (s.draws + 1)) (s.clock s.reads) q in
      let same : t.committed.attempts ≡ upsert d s.committed.attempts =
        ap (λ u. u.committed.attempts) run.ran
        ∙ kept run.command _ run.at_claim
        ∙ run.is_claimed.attempts in
      rw same record {
        old = written d (find_attempt q.sandbox_id q.attempt_index s.committed.attempts);
        taken = find_attempt-upsert d s.committed.attempts;
        fresh =
            find-upsert_old d (s.uuids (s.draws + 1)) s.committed.attempts before.old before.taken
              before.fresh;
      }

  -- When the sandbox already has an attempt with the request's index, and nobody touches the attempts while
  -- the command runs, the execution that execute_tool announces cannot be looked up afterwards, whether
  -- it returned or raised: the older attempt's row was overwritten and kept its identifier.
  pub get_execution-execute_tool :
      (q : Request) (old : Attempt) (s : Session)
      → find_attempt q.sandbox_id q.attempt_index s.committed.attempts ≡ some old
      → Tables.find (λ r. r.id) (s.uuids (s.draws + 1)) s.committed.attempts ≡ none
      → ((command : List String) (timeout_s : ℕ) (u : Session)
          → (exec_in_sandbox q.sandbox_id command timeout_s u).1.committed.attempts
            ≡ u.committed.attempts)
      → (get_execution
          (s.uuids (s.draws + 1))
          (execute_tool show_integer timeout_message exec_in_sandbox q s).1).0
        ≡ err domain_error
  get_execution-execute_tool q old s taken fresh kept =
      let id = s.uuids (s.draws + 1) in
      let before : IsTaken q id s.committed.attempts = record {
        old = old;
        taken = taken;
        fresh = fresh;
      } in
      get_execution-missing id _ (
        Outcome-either (λ s'. Tables.find (λ r. r.id) id s'.committed.attempts ≡ none)
          (execute_tool-Outcome show_integer timeout_message exec_in_sandbox q s)
          (λ a s' (t, d, run, reported, settled).
            let after = Run-IsTaken q s t kept before run in
            rw settled.attempts (
              find-upsert_old d id t.committed.attempts after.old
                (rw (reported.sandbox_id.0, reported.attempt_index.0) after.taken) after.fresh))
          (λ s' ended. elim ended [
            | inl refused ↦ rw refused.committed fresh
            | inr (t, run, same) ↦ rw same (Run-IsTaken q s t kept before run).fresh
          ]))
