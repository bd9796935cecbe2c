-- ===== src/Orchestrator/Repositories.antt =====
-- apps/orchestrator/src/infrastructure/db/repositories.py, approval_repository.py and the rows'
-- mapping: queries and upserts on the tables of a session. A row is stored as its entity; what is
-- read goes through the entity's constructor again. Row locks are not modelled.
use keviq_core.Prelude.{
  ◌^◌, ℕ, ◌≡◌, Bool, true, false, ◌&&◌, Option, none, some, List, [], ◌∷◌, map, ltb, arith, ◌==◌,
  if◌then◌else◌, where_test, take,
}
use keviq_core.Prelude.Tables
use keviq_core.Errors.{integrity_error, Result, ok, err}
use keviq_core.Orchestrator.Task
use keviq_core.Orchestrator.Task.{Task, TaskStatus}
use keviq_core.Orchestrator.Task.Brief.{IsSound}
use keviq_core.Orchestrator.Run
use keviq_core.Orchestrator.Run.{Run, RunStatus}
use keviq_core.Orchestrator.Step
use keviq_core.Orchestrator.Step.{Step, StepStatus}
use keviq_core.Orchestrator.Approval
use keviq_core.Orchestrator.Approval.{Approval}
use keviq_core.Orchestrator.Session.{Db, Session, Tx, AgentTemplate}

-- Constructors over what a query found.
module _ {A : Type 0} (reload : A → Result A) where
  abbrev pub load : Option A → Result (Option A)
  load none = ok none
  load (some a) = elim (reload a) [ ok a' ↦ ok (some a') | err e ↦ err e ]

  abbrev both : Result A → Result (List A) → Result (List A)
  both (ok a) (ok rows) = ok (a ∷ rows)
  both (ok a) (err e) = err e
  both (err e) _ = err e

  abbrev pub load_all : List A → Result (List A)
  load_all [] = ok []
  load_all (a ∷ rows) = both (reload a) (load_all rows)

-- SqlTaskRepository
unfoldable pub save_task : Task → Tx (Unit {0})
save_task t s =
    (ok tt, record s { db = record s.db { tasks = Tables.save (λ r. r.id) t s.db.tasks } })

unfoldable pub get_task : ℕ → Tx (Option Task)
unfolding Task.reload
get_task id s = (load Task.reload (Tables.find (λ r. r.id) id s.db.tasks), s)

abbrev pub is_running_task : TaskStatus → Bool
is_running_task TaskStatus.running = true
is_running_task _ = false

unfoldable pub list_running : Tx (List Task)
unfolding Task.reload
list_running s = (
  load_all Task.reload (
      take 50 (
        Tables.order_by (λ r. r.updated_at)
          (where_test (λ r. is_running_task r.task_status) s.db.tasks))),
  s,
)

-- `runs.duration_ms` is an `Integer`, of 32 bits.
abbrev pub fits : Option ℕ → Bool
fits none = true
fits (some n) = ltb n (2 ^ 31)

-- SqlRunRepository
unfoldable pub save_run : Run → Tx (Unit {0})
save_run r s =
    if fits r.duration_ms
    then (ok tt, record s { db = record s.db { runs = Tables.save (λ q. q.id) r s.db.runs } })
    else (err integrity_error, s)

-- What the run has of a duration fits, and so does what it would have at any reading of the clock.
pub record IsMeasurable (s : Session) (r : Run) : Type 0 where
  pub measured : fits r.duration_ms ≡ true
  pub at : (n : ℕ) → fits (Run.compute_duration r.started_at (s.clock n)) ≡ true

unfoldable pub get_run : ℕ → Tx (Option Run)
unfolding Run.reload
get_run id s = (load (λ r. ok (Run.reload r)) (Tables.find (λ q. q.id) id s.db.runs), s)

-- `run_status NOT IN (completed, failed, cancelled, timed_out)`
unfoldable pub list_active_by_task : ℕ → Tx (List Run)
unfolding Run.reload
list_active_by_task task_id s = (
  ok (
      map Run.reload
        (where_test (λ r. (r.task_id == task_id) && Run.is_active r.run_status) s.db.runs)),
  s,
)

-- The run with the greatest `created_at`; the first of them, where several have it.
abbrev pub later : Run → Option Run → Option Run
later r none = some r
later r (some q) = if ltb r.created_at q.created_at then some q else some r

unfoldable pub latest : List Run → Option Run
latest [] = none
latest (r ∷ rows) = later r (latest rows)

unfoldable pub get_latest_by_task : ℕ → Tx (Option Run)
unfolding latest Run.reload
get_latest_by_task task_id s =
    (load (λ r. ok (Run.reload r)) (latest (where_test (λ r. r.task_id == task_id) s.db.runs)), s)

-- `list_stuck_for_update`, with the statuses as a test.
unfoldable pub list_stuck_runs : (stuck_before : ℕ) → (RunStatus → Bool) → Tx (List Run)
unfolding Run.reload
list_stuck_runs stuck_before eligible s = (
  ok (
      map Run.reload (
        take 100 (
          Tables.order_by (λ r. r.updated_at)
            (where_test (λ r. eligible r.run_status && ltb r.updated_at stuck_before) s.db.runs)))),
  s,
)

-- SqlStepRepository
unfoldable pub save_step : Step → Tx (Unit {0})
save_step t s =
    (ok tt, record s { db = record s.db { steps = Tables.save (λ q. q.id) t s.db.steps } })

unfoldable pub get_step : ℕ → Tx (Option Step)
unfolding Step.reload
get_step id s = (load Step.reload (Tables.find (λ q. q.id) id s.db.steps), s)

unfoldable pub list_active_by_run : ℕ → Tx (List Step)
unfolding Step.reload
list_active_by_run run_id s = (
  load_all Step.reload
      (where_test (λ t. (t.run_id == run_id) && Step.is_active t.step_status) s.db.steps),
  s,
)

unfoldable pub list_stuck_steps : (stuck_before : ℕ) → (StepStatus → Bool) → Tx (List Step)
unfolding Step.reload
list_stuck_steps stuck_before eligible s = (
  load_all Step.reload (
      take 100 (
        Tables.order_by (λ t. t.updated_at)
          (where_test (λ t. eligible t.step_status && ltb t.updated_at stuck_before) s.db.steps))),
  s,
)

-- SqlApprovalRepository
unfoldable pub save_approval : Approval → Tx (Unit {0})
save_approval a s =
    (ok tt, record s { db = record s.db { approvals = Tables.save (λ q. q.id) a s.db.approvals } })

unfoldable pub get_approval : ℕ → Tx (Option Approval)
unfolding Approval.reload
get_approval id s = (load Approval.reload (Tables.find (λ q. q.id) id s.db.approvals), s)

-- `uow.agent_templates.get_by_id`
unfoldable pub get_agent_template : ℕ → Tx (Option AgentTemplate)
get_agent_template id s = (ok (Tables.find (λ q. q.id) id s.db.agent_templates), s)

-- What the tables hold under a key.
abbrev pub task_at : Db → ℕ → Option Task
task_at d id = Tables.find (λ r. r.id) id d.tasks

abbrev pub run_at : Db → ℕ → Option Run
run_at d id = Tables.find (λ r. r.id) id d.runs

abbrev pub step_at : Db → ℕ → Option Step
step_at d id = Tables.find (λ r. r.id) id d.steps

abbrev pub approval_at : Db → ℕ → Option Approval
approval_at d id = Tables.find (λ r. r.id) id d.approvals

-- A sound row is read back as it is stored; a run has its lock worked out from its status.
module _ (s : Session) (id : ℕ) where
  pub get_task-found :
      (t : Task) → task_at s.db id ≡ some t → IsSound t → get_task id s ≡ (ok (some t), s)
  unfolding get_task
  get_task-found t f v = ground arith

  pub get_run-found :
      (r : Run) → run_at s.db id ≡ some r → get_run id s ≡ (ok (some (Run.reload r)), s)
  unfolding get_run
  get_run-found r f = ground arith

  pub get_step-found :
      (q : Step)
      → step_at s.db id ≡ some q
      → ltb q.sequence 1 ≡ false
      → get_step id s ≡ (ok (some q), s)
  unfolding get_step
  get_step-found q f n = ground arith
