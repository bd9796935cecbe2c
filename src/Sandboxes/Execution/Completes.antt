-- ===== src/Sandboxes/Execution/Completes.antt =====
-- When `execute_tool` returns, and when it cannot.
use keviq_core.Prelude.{
  not, ◌&&◌, Bool, ℕ, ◌+◌, ◌≡◌, ◌≢◌, refl, ap, ◌∙◌, String, List, inl, inr, ℤ, true, false, some,
  none, Option, is_some, arith, Bool-cases,
}
use keviq_core.Prelude.Tables
use keviq_core.Errors.{Error, ok, err}
use keviq_core.Transaction.Outcomes.{Outcome-raises}
use keviq_core.Transaction.Returns.{Returns, returned, Returns-bind}
use keviq_core.Sandboxes.Sandbox
use keviq_core.Sandboxes.Sandbox.{Sandbox, SandboxStatus, executing, idle}
use keviq_core.Sandboxes.Contracts.{ToolExecutionResult, ToolExecutionStatus, value}
use keviq_core.Sandboxes.Store.{
  Db, Session, Attempt, AttemptData, Payload, execution_failed, claimable, find_attempt, refused,
  is_storable, has_nul, fits_integer, input_storable, ask, claim_for_execution, get_by_id, save,
  save_attempt, with_uow, write, commit, pure, ◌>>◌,
}
use keviq_core.Sandboxes.Store.Attempts.{written, find_attempt-upsert, refused_old}
use keviq_core.Sandboxes.Tools.{ToolDefinition, get_tool, build_command}
use keviq_core.Sandboxes.Execution.{
  ExecResult, truncate, finished, Request, Reply, replied, ran_out, broke, timeout_seconds,
  not_positive, started, broken, failure, refuse_type, claim, release, settle, record_outcome,
  record_failure, after_command, execute_tool,
}
use keviq_core.Sandboxes.Execution.Claims.{claimed}
use keviq_core.Sandboxes.Execution.Settles.{Settled, released}
use keviq_core.Sandboxes.Execution.Ends.{Raised, execute_tool-Outcome}

-- The sandbox executes, and the attempt is on record.
pub record IsRunning (q : Request) (c : Db) : Type 0 where
  pub sandbox : Sandbox
  pub found : Tables.find (λ r. r.id) q.sandbox_id c.sandboxes ≡ some sandbox
  pub executes : sandbox.sandbox_status ≡ executing
  pub attempt : Attempt
  pub on_record : find_attempt q.sandbox_id q.attempt_index c.attempts ≡ some attempt

-- The sandbox is idle, and the attempt is on record with the status that the caller is told.
pub record IsDone (q : Request) (a : ToolExecutionResult) (c : Db) : Type 0 where
  pub sandbox : Sandbox
  pub found : Tables.find (λ r. r.id) q.sandbox_id c.sandboxes ≡ some sandbox
  pub is_idle : sandbox.sandbox_status ≡ idle
  pub attempt : Attempt
  pub on_record : find_attempt q.sandbox_id q.attempt_index c.attempts ≡ some attempt
  pub status : attempt.status ≡ value a.status

-- A new identifier and a sandbox that exists are all that the attempt's row needs.
fresh-refused :
    (d : AttemptData) (c : Db) (b : Sandbox)
    → Tables.find (λ r. r.id) d.id c.attempts ≡ none
    → Tables.find (λ r. r.id) d.sandbox_id c.sandboxes ≡ some b
    → is_storable d ≡ true
    → refused d c ≡ false
fresh-refused d c b h k fits =
    elim (Bool-cases (is_some (find_attempt d.sandbox_id d.attempt_index c.attempts))) [
      | inl old ↦ rw (fits, old)
      | inr new ↦ rw (fits, new, h, k)
    ]

pub claim-Returns :
    (q : Request) (tool : ToolDefinition) (execution_id correlation_id start : ℕ) (b : Sandbox)
    (s : Session)
    → Tables.find (λ r. r.id) q.sandbox_id s.committed.sandboxes ≡ some b
    → claimable b.sandbox_status ≡ true
    → tool.allowed_sandbox_types b.sandbox_type ≡ true
    → Tables.find (λ r. r.id) execution_id s.committed.attempts ≡ none
    → is_storable (started execution_id start q) ≡ true
    → Returns (λ _ s'. IsRunning q s'.committed) (claim q tool execution_id correlation_id start s)
unfolding claim with_uow claim_for_execution get_by_id save refuse_type save_attempt write commit
claim-Returns q tool execution_id correlation_id start b s found was_free allowed fresh fits =
    let alive : Sandbox.sandbox_terminal b.sandbox_status ≡ false = ground (arith, was_free) in
    let live : Sandbox.sandbox_transitions b.sandbox_status executing ≡ true =
      ground (arith, was_free) in
    let b' = claimed (s.clock s.reads) b in
    let mid = record s.committed { sandboxes = Tables.save (λ r. r.id) b' s.committed.sandboxes } in
    let same = Tables.key-find (λ r. r.id) q.sandbox_id s.committed.sandboxes b found in
    let kept = Tables.find-save_self (λ r. r.id) q.sandbox_id b' s.committed.sandboxes same in
    let d = started execution_id start q in
    rw (found, was_free, alive, live, allowed, fresh-refused d mid b' fresh kept fits)
      (returned _ _ record {
        sandbox = b';
        found = kept;
        executes = refl;
        attempt = written d (find_attempt q.sandbox_id q.attempt_index s.committed.attempts);
        on_record = find_attempt-upsert d s.committed.attempts;
      })

written_status : (d : AttemptData) (o : Option Attempt) → (written d o).status ≡ d.status
written_status d none = refl
written_status d (some r) = refl

pub settle-Returns :
    (q : Request) (workspace_id correlation_id : ℕ) (d : AttemptData) (payload : Payload)
    (a : ToolExecutionResult) (s : Session)
    → d.sandbox_id ≡ q.sandbox_id
    → d.attempt_index ≡ q.attempt_index
    → d.status ≡ value a.status
    → is_storable d ≡ true
    → IsRunning q s.committed
    → Returns (λ _ s'. IsDone q a s'.committed) (settle q workspace_id correlation_id d payload s)
unfolding settle with_uow get_by_id release save save_attempt write commit
settle-Returns q workspace_id correlation_id d payload a s here index status fits run =
    let alive : Sandbox.sandbox_terminal run.sandbox.sandbox_status ≡ false = rw run.executes in
    let live : Sandbox.sandbox_transitions run.sandbox.sandbox_status idle ≡ true =
      rw run.executes in
    let b' = released (s.clock s.reads) run.sandbox in
    let mid = record s.committed { sandboxes = Tables.save (λ r. r.id) b' s.committed.sandboxes } in
    let same =
      Tables.key-find (λ r. r.id) q.sandbox_id s.committed.sandboxes run.sandbox run.found in
    let old : find_attempt d.sandbox_id d.attempt_index s.committed.attempts ≡ some run.attempt =
      rw (here, index) run.on_record in
    rw (run.found, alive, live, refused_old d mid run.attempt old fits)
      (returned _ _ record {
        sandbox = b';
        found = Tables.find-save_self (λ r. r.id) q.sandbox_id b' s.committed.sandboxes same;
        is_idle = refl;
        attempt = written d (find_attempt d.sandbox_id d.attempt_index s.committed.attempts);
        on_record = rw (← here, ← index) (find_attempt-upsert d s.committed.attempts);
        status = written_status d _ ∙ status;
      })

-- The transaction, and then what the caller is told.
settle_then-Returns :
    (q : Request) (workspace_id correlation_id : ℕ) (d : AttemptData) (payload : Payload)
    (a : ToolExecutionResult) (s : Session)
    → d.sandbox_id ≡ q.sandbox_id
    → d.attempt_index ≡ q.attempt_index
    → d.status ≡ value a.status
    → is_storable d ≡ true
    → IsRunning q s.committed
    → Returns
        (λ a s'. IsDone q a s'.committed)
        ((do settle q workspace_id correlation_id d payload; pure a) s)
settle_then-Returns q workspace_id correlation_id d payload a s here index status fits run =
    Returns-bind {f = λ _. pure a}
      (settle-Returns q workspace_id correlation_id d payload a s here index status fits run)
      (λ _ t done. returned a t done)

-- The index of the request has 32 bits, and its input has no NUL.
abbrev pub fits_request : Request → Bool
fits_request q = fits_integer q.attempt_index && input_storable q.tool_input

-- What the command comes to has no NUL in what is kept of it, and an exit code of 32 bits.
abbrev pub fits_reply : (timeout_message : ℕ → String) → Request → Reply → Bool
fits_reply timeout_message q (replied r) =
    not (has_nul (truncate r.stdout))
    && not (has_nul (truncate r.stderr))
    && fits_integer r.exit_code
fits_reply timeout_message q ran_out =
    not (has_nul (timeout_message (timeout_seconds q.timeout_ms)))
fits_reply timeout_message q (broke message) = not (has_nul message)

started-storable :
    (q : Request) (execution_id start : ℕ)
    → fits_request q ≡ true
    → is_storable (started execution_id start q) ≡ true
started-storable q execution_id start fits = ground (arith, fits)

broken-storable :
    (q : Request) (execution_id at : ℕ) (status : ToolExecutionStatus)
    (error_code error_message : String)
    → fits_request q ≡ true
    → has_nul error_message ≡ false
    → is_storable (broken execution_id at q status error_code error_message) ≡ true
broken-storable q execution_id at status error_code error_message fits plain =
    ground (arith, fits, plain)

finished-storable :
    (q : Request) (execution_id at : ℕ) (r : ExecResult)
    → fits_request q ≡ true
    → (not (has_nul (truncate r.stdout))
        && not (has_nul (truncate r.stderr))
        && fits_integer r.exit_code)
      ≡ true
    → is_storable (finished execution_id at q r) ≡ true
finished-storable q execution_id at r fits fine = ground (arith, fits, fine)

plain-not_nul : (s : String) → not (has_nul s) ≡ true → has_nul s ≡ false
plain-not_nul s h = ground (arith, h)

record_failure-Returns :
    (q : Request) (execution_id workspace_id correlation_id : ℕ) (status : ToolExecutionStatus)
    (error_code error_message : String) (s : Session)
    → fits_request q ≡ true
    → has_nul error_message ≡ false
    → IsRunning q s.committed
    → Returns
        (λ a s'. IsDone q a s'.committed)
        (record_failure execution_id q workspace_id correlation_id status error_code error_message
          s)
unfolding record_failure
record_failure-Returns q execution_id workspace_id correlation_id status error_code error_message s
      fits plain run =
    settle_then-Returns q workspace_id correlation_id
      (broken execution_id (s.clock s.reads) q status error_code error_message)
      (execution_failed execution_id q.tool_name q.attempt_index error_code error_message none)
      (failure q status error_code error_message) (record s { reads = s.reads + 1 }) refl refl refl
      (broken-storable q execution_id (s.clock s.reads) status error_code error_message fits plain)
      run

-- Only an executing sandbox can be released.
not-Settled :
    (q : Request) (d : AttemptData) (c : Db) (s : Session) (b : Sandbox)
    → Tables.find (λ r. r.id) q.sandbox_id c.sandboxes ≡ some b
    → b.sandbox_status ≢ executing
    → ¬ Settled q d c s
not-Settled q d c s b found other settled = elim settled.sandboxes [
  | inl (missing, _) ↦ cc
  | inr (b', _, found', runs, _) ↦
      other (let same : b ≡ b' = ground (arith, found, found') in rw same runs)
]

module _ (show_integer : ℤ → String) (timeout_message : ℕ → String) where
  after_command-Returns :
      (q : Request) (execution_id workspace_id correlation_id : ℕ) (reply : Reply) (s : Session)
      → fits_request q ≡ true
      → fits_reply timeout_message q reply ≡ true
      → IsRunning q s.committed
      → Returns
          (λ a s'. IsDone q a s'.committed)
          (after_command show_integer timeout_message execution_id q workspace_id correlation_id
            reply s)
  unfolding after_command record_outcome
  after_command-Returns q execution_id workspace_id correlation_id (replied r) s fits fine run =
      settle_then-Returns q workspace_id correlation_id _ _ _ (record s { reads = s.reads + 1 })
        refl refl refl (finished-storable q execution_id (s.clock s.reads) r fits fine) run
  after_command-Returns q execution_id workspace_id correlation_id ran_out s fits fine run =
      record_failure-Returns q execution_id workspace_id correlation_id _ _ _ s fits
        (plain-not_nul _ fine) run
  after_command-Returns q execution_id workspace_id correlation_id (broke message) s fits fine run =
      record_failure-Returns q execution_id workspace_id correlation_id _ _ _ s fits
        (plain-not_nul _ fine) run

  module _ (exec_in_sandbox : ℕ → List String → ℕ → Session → Reply × Session) where
    pub execute_tool-Returns :
        (q : Request) (s : Session) (tool : ToolDefinition) (command : List String) (b : Sandbox)
        → get_tool q.tool_name ≡ ok tool
        → build_command q.tool_name q.tool_input ≡ ok command
        → not_positive q.timeout_ms ≡ false
        → fits_request q ≡ true
        → ((t : Session)
            → fits_reply timeout_message q
                (exec_in_sandbox q.sandbox_id command (timeout_seconds q.timeout_ms) t).0
              ≡ true)
        → Tables.find (λ r. r.id) q.sandbox_id s.committed.sandboxes ≡ some b
        → claimable b.sandbox_status ≡ true
        → tool.allowed_sandbox_types b.sandbox_type ≡ true
        → Tables.find (λ r. r.id) (s.uuids (s.draws + 1)) s.committed.attempts ≡ none
        → ((t : Session)
            → IsRunning q t.committed
            → IsRunning q
                (exec_in_sandbox q.sandbox_id command (timeout_seconds q.timeout_ms) t).1.committed)
        → Returns
            (λ a s'. IsDone q a s'.committed)
            (execute_tool show_integer timeout_message exec_in_sandbox q s)
    unfolding execute_tool ask
    execute_tool-Returns q s tool command b is_tool is_command positive fits fine found was_free
          allowed fresh kept =
        rw (is_tool, is_command, positive)
          (Returns-bind
            (claim-Returns q tool (s.uuids (s.draws + 1)) (s.uuids s.draws) (s.clock s.reads) b
              (record s { draws = s.draws + 1 + 1; reads = s.reads + 1 }) found was_free allowed
              fresh (started-storable q (s.uuids (s.draws + 1)) (s.clock s.reads) fits))
            (λ b u run. after_command-Returns q _ _ _ _ _ fits (fine _) (kept _ run)))

    -- If the sandbox is not executing any more when the command has ended, as when it was terminated or
    -- recovered meanwhile, execute_tool raises, and commits nothing after the command: the attempt keeps the
    -- status that it had.
    pub execute_tool-raises :
        (q : Request) (s : Session)
        → ((command : List String) (timeout_s : ℕ) (t : Session)
            → (b : Sandbox) × (Tables.find
                  (λ r. r.id)
                  q.sandbox_id
                  (exec_in_sandbox q.sandbox_id command timeout_s t).1.committed.sandboxes
                ≡ some b)
              × (b.sandbox_status ≢ executing))
        → ((e : Error) × ((execute_tool show_integer timeout_message exec_in_sandbox q s).0
              ≡ err e))
          × Raised show_integer timeout_message exec_in_sandbox q s
              (execute_tool show_integer timeout_message exec_in_sandbox q s).1
    execute_tool-raises q s moved =
        Outcome-raises (execute_tool-Outcome show_integer timeout_message exec_in_sandbox q s)
          (λ a s' (t, d, run, reported, settled).
            let (b, found, still) = moved run.command (timeout_seconds q.timeout_ms) run.at_claim in
            not-Settled q d t.committed s' b
              (ap (λ u. Tables.find (λ r. r.id) q.sandbox_id u.committed.sandboxes) run.ran ∙ found)
              still settled)
