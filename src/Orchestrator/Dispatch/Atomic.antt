-- ===== src/Orchestrator/Dispatch/Atomic.antt =====
-- From a pending task to its end.
use Prim.Native.String.{◌++◌ as ◌++ˢ◌}
use keviq_core.Prelude.{
  ℕ, ◌≡◌, refl, sym, ◌∙◌, inl, inr, true, Option, none, some, List, [], ◌∷◌, ◌++◌, Bool-cases,
  String, if◌then◌else◌,
}
use keviq_core.Prelude.Tables
use keviq_core.Orchestrator.Task.{Task, TaskStatus}
use keviq_core.Orchestrator.Task.Brief.{IsSound}
use keviq_core.Orchestrator.Run
use keviq_core.Orchestrator.Run.{Run, RunStatus}
use keviq_core.Orchestrator.Step.{Step}
use keviq_core.Orchestrator.Session.{
  Session, Db, PortCall, provisioned, dispatched, terminated, ask,
}
use keviq_core.Orchestrator.Repositories.{
  fits, task_at, run_at, step_at, get_task-found, IsMeasurable,
}
use keviq_core.Orchestrator.Moves.{Returns, Returns-bind, Returns-close, Returns-weaken}
use keviq_core.Orchestrator.Execution.{
  RuntimeResult, failure, Reply, answered, raised, dispatch_result, map_termination_reason,
  finalize_execution,
}
use keviq_core.Orchestrator.Execution.Finish.{
  AreRunning, finalize-ends, TaskHas, RunHas, StepHas, task_end, run_end, step_end,
}
use keviq_core.Orchestrator.Dispatch.{
  World, Started, dispatch_and_finish, provision, after_provision, execute_single_task,
  run_real_execution, is_pending,
}
use keviq_core.Orchestrator.Dispatch.Starts.{start_execution-starts}

-- What comes of the two services: the result, as the code sees it, and the calls that it makes.
abbrev failed_provision : Started → (name message : String) → RuntimeResult
failed_provision e name message =
    failure e.agent_invocation_id "SANDBOX_PROVISION_FAILED"
      ("Failed to provision sandbox: " ++ˢ (name ++ˢ (": " ++ˢ message)))

abbrev without_sandbox : World → Started → RuntimeResult
without_sandbox world e = dispatch_result e.agent_invocation_id (world.dispatch none)

abbrev in_sandbox : World → Started → ℕ → RuntimeResult
in_sandbox world e b = dispatch_result e.agent_invocation_id (world.dispatch (some b))

abbrev provided : World → Started → Reply ℕ → RuntimeResult
provided world e (answered b) = in_sandbox world e b
provided world e (raised name message) = failed_provision e name message

abbrev pub outcome : World → Started → Option (Reply ℕ) → RuntimeResult
outcome world e none = without_sandbox world e
outcome world e (some reply) =
    if world.skip_sandbox then without_sandbox world e else provided world e reply

-- The sandbox that is provisioned is terminated after the dispatch, whatever came of it, with the
-- reason that the result maps to; without a sandbox there is the dispatch alone; and where the
-- provision raises there is no dispatch.
abbrev reply_calls : World → Started → Reply ℕ → List PortCall → List PortCall
reply_calls world e (answered b) old =
    (old ++ dispatched e.agent_invocation_id (some b) ∷ [])
    ++ terminated b (map_termination_reason (in_sandbox world e b)) ∷ []
reply_calls world e (raised name message) old = old

abbrev pub port_trace : World → Started → Option (Reply ℕ) → List PortCall → List PortCall
port_trace world e none old = old ++ dispatched e.agent_invocation_id none ∷ []
port_trace world e (some reply) old =
    if world.skip_sandbox
    then old ++ dispatched e.agent_invocation_id none ∷ []
    else reply_calls world e reply (
        old
        ++ provisioned e.task.workspace_id e.task.id e.run.id e.step.id e.agent_invocation_id ∷ [])

-- The three rows end as the result says, and the calls are these.
abbrev pub EndsWith : Started → RuntimeResult → List PortCall → Unit {0} → Session → Type 0
EndsWith e result calls _ s' =
    TaskHas (task_at s'.committed e.task.id) (task_end result)
    × RunHas (run_at s'.committed e.run.id) e.task.id (run_end result)
    × StepHas (step_at s'.committed e.step.id) e.run.id (step_end result)
    × (s'.port_calls ≡ calls)

-- The run is still of the task of the execution, and the step of its run.
finalize-EndsWith :
    (e : Started) (t : Task) (r : Run) (q : Step) (result : RuntimeResult) (s : Session)
    → AreRunning s.committed e.task.id e.run.id e.step.id t r q
    → (r.task_id ≡ e.task.id) × (q.run_id ≡ e.run.id)
    → IsMeasurable s r
    → Returns
        (EndsWith e result s.port_calls)
        (finalize_execution e.task.id e.run.id e.step.id result e.correlation_id e.step_started s)
finalize-EndsWith e t r q result s a own m =
    Returns-weaken (finalize-ends _ _ _ t r q result _ _ s a m)
      λ _ _ (task, run, step, calls). (task, rw own.0 at run, rw own.1 at step, calls)

module _ (world : World) (e : Started) (s : Session) (t : Task) (r : Run) (q : Step)
    (a : AreRunning (world.meanwhile s.committed) e.task.id e.run.id e.step.id t r q)
    (own : (r.task_id ≡ e.task.id) × (q.run_id ≡ e.run.id)) (m : IsMeasurable s r) where
  after_provision-ends :
      (reply : Reply ℕ)
      → Returns
          (EndsWith e (provided world e reply) (reply_calls world e reply s.port_calls))
          (after_provision world e reply s)
  unfolding after_provision
  after_provision-ends (answered b) =
      finalize-EndsWith e t r q _ _ a own (record { measured = m.measured; at = m.at })
  after_provision-ends (raised name message) =
      finalize-EndsWith e t r q _ _ a own (record { measured = m.measured; at = m.at })

  without_sandbox-ends :
      Returns
        (EndsWith e
          (without_sandbox world e)
          (s.port_calls ++ dispatched e.agent_invocation_id none ∷ []))
        (dispatch_and_finish world e none s)
  unfolding dispatch_and_finish
  without_sandbox-ends =
      finalize-EndsWith e t r q _ _ a own (record { measured = m.measured; at = m.at })

provision-ends :
    (world : World) (e : Started) (s : Session) (t : Task) (r : Run) (q : Step)
    → AreRunning (world.meanwhile s.committed) e.task.id e.run.id e.step.id t r q
    → (r.task_id ≡ e.task.id) × (q.run_id ≡ e.run.id)
    → IsMeasurable s r
    → (service : Option (Reply ℕ))
    → Returns
        (EndsWith e (outcome world e service) (port_trace world e service s.port_calls))
        (provision world e service s)
unfolding provision ask
provision-ends world e s t r q a own m none = without_sandbox-ends world e s t r q a own m
provision-ends world e s t r q a own m (some reply) = elim (Bool-cases world.skip_sandbox) [
  | inl p ↦ rw p (without_sandbox-ends world e s t r q a own m)
  | inr p ↦ rw p (
      after_provision-ends world e _ t r q a own (record { measured = m.measured; at = m.at })
        reply)
]

-- Where the task, a run and a step of the execution end.
abbrev pub Executed : World → (task_id : ℕ) → Session → Unit {0} → Session → Type 0
Executed world task_id s _ s' =
    (e : Started) × (e.task.id ≡ task_id)
    × EndsWith e (outcome world e world.execution_service)
        (port_trace world e world.execution_service s.port_calls) tt s'

-- Total correctness of an execution that nothing disturbs: for a stored task that is sound and
-- pending, if other transactions leave the tables alone and the milliseconds between any two readings
-- of the clock fit 32 bits, the call returns, whatever the two services answer or raise. The task,
-- one run of it and one step of that run are then committed: the task and the step as completed if
-- the result is a success and as failed otherwise, the run as completed, timed_out or failed; a sandbox is asked for, terminated with the mapped reason and the dispatch made in between
-- exactly as the answers of the services demand.
pub run_real_execution-ends :
    (world : World) (task_id : ℕ) (task : Task) (s : Session)
    → task_at s.committed task_id ≡ some task
    → IsSound task
    → task.task_status ≡ TaskStatus.pending
    → ((d : Db) → world.meanwhile d ≡ d)
    → ((m n : ℕ) → fits (Run.compute_duration (some (s.clock m)) (s.clock n)) ≡ true)
    → Returns (Executed world task_id s) (run_real_execution world task_id s)
unfolding run_real_execution execute_single_task
run_real_execution-ends world task_id task s found sound pending undisturbed short =
    let s' : Session = record s { db = s.committed } in
    let named : task.id ≡ task_id =
      Tables.key-find (λ (x : Task). x.id) task_id s.committed.tasks task found in
    let is : is_pending task.task_status ≡ true = rw pending refl in
    rw (get_task-found s' task_id task found sound) (
      rw is (
        Returns-close {P = Executed world task_id s}
          (Returns-bind (start_execution-starts task s' pending sound short)
            λ e s₁ (own, running, calls, of_task, of_run, timed).
              Returns-weaken
                (provision-ends world e s₁ e.task e.run e.step
                  (rw (undisturbed s₁.committed) running) (of_task, of_run) timed
                  world.execution_service)
                λ _ s₂ (t, r, q, trace). (e, own ∙ named, (t, r, q, rw (sym calls) trace)))
          λ _ s₁ ends. ends))
