-- ===== src/Sandboxes/Examples/Executions.antt =====
-- Tool executions, the sweep and the interleavings at concrete inputs.
use keviq_core.Prelude.{
  ℕ, ◌+◌, ◌-◌, ◌≤◌, ◌≡◌, ◌≢◌, refl, none, some, String, List, [], ◌∷◌, Bool, true, false, ℤ, All,
}
use keviq_core.Prelude.Tables
use keviq_core.Errors.{Error, Result, ok, err, domain_error}
use keviq_core.Transaction.Outcomes.{Outcome}
use keviq_core.Transaction.Returns.{Returns}
use keviq_core.Sandboxes.Sandbox.{Sandbox, executing, idle}
use keviq_core.Sandboxes.Contracts.{text}
use keviq_core.Sandboxes.Store.{Db, Session, Attempt, find_attempt, list_stuck, input_storable}
use keviq_core.Sandboxes.Tools.{run_script}
use keviq_core.Sandboxes.Execution.{
  Request, Reply, replied, ran_out, execute_tool, get_execution, claim,
}
use keviq_core.Sandboxes.Execution.Ends.{Ended, Raised, execute_tool-Outcome}
use keviq_core.Sandboxes.Execution.Completes.{execute_tool-raises}
use keviq_core.Sandboxes.Execution.Repeated.{get_execution-execute_tool}
use keviq_core.Sandboxes.Recovery.{minutes, shorter, recover_stuck_sandboxes}
use keviq_core.Sandboxes.Recovery.Sweeps.{
  Swept, IsSettled, IsOverdue, recover_stuck_sandboxes-Returns,
}
use keviq_core.Sandboxes.Exclusion.{System, count, Reach, idle_from, next, claims}
use keviq_core.Sandboxes.Exclusion.Single.{Reach-single}
use keviq_core.Sandboxes.Examples.{show_error, backend_terminate, ready_sandbox, session}

abbrev show_integer : ℤ → String
show_integer i = "137"

abbrev timeout_message : ℕ → String
timeout_message n = "timed out"

abbrev run_code : Request
run_code = record {
  sandbox_id = 5;
  attempt_index = ℤ.pos 0;
  tool_name = "python.run_script";
  tool_input = ("code", text "print(1)") ∷ [];
  timeout_ms = ℤ.pos 1500;
}

-- A backend where the command is killed, and nothing else happens meanwhile.
abbrev killed : ℕ → List String → ℕ → Session → Reply × Session
killed id command timeout_s s =
    (replied record { stdout = "1"; stderr = ""; exit_code = ℤ.pos 137 }, s)

abbrev the_command : List String
the_command = "python" ∷ "-c" ∷ "print(1)" ∷ []

execute_tool-Outcome_example :
    Outcome
      (Ended show_integer timeout_message killed run_code session)
      (Raised show_integer timeout_message killed run_code session)
      (execute_tool show_integer timeout_message killed run_code session)
execute_tool-Outcome_example =
    execute_tool-Outcome show_integer timeout_message killed run_code session

-- A backend during whose command a sweep makes the sandbox idle
abbrev idle_db : Db
idle_db = record session.committed {
  sandboxes = record ready_sandbox { sandbox_status = idle } ∷ [];
}

abbrev swept_away : ℕ → List String → ℕ → Session → Reply × Session
swept_away id command timeout_s s = (ran_out, record s { db = idle_db; committed = idle_db })

idle_stored :
    Tables.find (λ r. r.id) 5 idle_db.sandboxes
    ≡ some (record ready_sandbox { sandbox_status = idle })
unfolding Tables.find
idle_stored = refl

idle_ne_executing : idle ≢ executing
idle_ne_executing e = cc

execute_tool-raises_example :
    ((e : Error) × ((execute_tool show_integer timeout_message swept_away run_code session).0
        ≡ err e))
    × Raised show_integer timeout_message swept_away run_code session
        (execute_tool show_integer timeout_message swept_away run_code session).1
execute_tool-raises_example =
    execute_tool-raises show_integer timeout_message swept_away run_code session
      (λ command timeout_s t.
        (record ready_sandbox { sandbox_status = idle }, idle_stored, idle_ne_executing))

-- The attempt of an earlier tool of the same turn
abbrev earlier : Attempt
earlier = record {
  id = 50;
  sandbox_id = 5;
  attempt_index = ℤ.pos 0;
  tool_name = "shell.exec";
  tool_input = [];
  status = "completed";
  stdout = some "";
  stderr = some "";
  exit_code = some (ℤ.pos 0);
  truncated = false;
  error_detail = none;
  started_at = some 1;
  completed_at = some 2;
}

abbrev second : Session
second = record session { committed = record session.committed { attempts = earlier ∷ [] } }

taken : find_attempt 5 (ℤ.pos 0) (earlier ∷ []) ≡ some earlier
unfolding find_attempt
taken = refl

fresh : Tables.find (λ r. r.id) 101 (earlier ∷ []) ≡ none
unfolding Tables.find
fresh = refl

get_execution-execute_tool_example :
    (get_execution 101 (execute_tool show_integer timeout_message killed run_code second).1).0
    ≡ err domain_error
get_execution-execute_tool_example =
    get_execution-execute_tool show_integer timeout_message killed run_code earlier second taken
      fresh (λ command timeout_s u. refl)

abbrev is_alive : ℕ → Result Bool
is_alive id = ok true

-- An execution that has been silent since the start.
abbrev stuck : Sandbox
stuck = record ready_sandbox { sandbox_status = executing }

abbrev late : Session
late = record session {
  committed = record session.committed { sandboxes = stuck ∷ [] };
  clock = λ n. 3600000000 + n;
}

listed :
    (list_stuck
      (late.clock late.reads - minutes (shorter 10 30))
      (record late { db = late.committed; reads = late.reads + 1 })).0
    ≡ ok (stuck ∷ [])
unfolding list_stuck Tables.order_by
listed = refl

recover_stuck_sandboxes-Returns_example :
    Returns
      (λ _ s'.
        Swept late.committed s'.committed
        × All
            (λ b. IsOverdue 10 30 (late.clock late.reads) b → IsSettled b.id s'.committed)
            (stuck ∷ []))
      (recover_stuck_sandboxes show_error is_alive backend_terminate 10 30 late)
recover_stuck_sandboxes-Returns_example =
    recover_stuck_sandboxes-Returns show_error is_alive backend_terminate 10 30 (stuck ∷ []) late
      listed

-- One execution has claimed the sandbox.
abbrev claimed_system : System
claimed_system = record {
  tables = (claim run_code run_script 101 100 0 session).1.committed;
  running = 5 ∷ [];
  pending = [];
}

claim_returns : (b : Sandbox) × ((claim run_code run_script 101 100 0 session).0 ≡ ok b)
unfolding claim Tables.find Tables.save input_storable
claim_returns = (_, refl)

reached : Reach show_error is_alive backend_terminate claimed_system
reached =
    next (idle_from session.committed)
      (claims run_code run_script 101 100 0 claim_returns.0 session refl claim_returns.1 refl)

Reach-single_example : count 5 claimed_system.running ≤ 1
Reach-single_example = Reach-single show_error is_alive backend_terminate claimed_system reached 5
