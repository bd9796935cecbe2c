-- ===== src/Orchestrator/Task/Lifecycle.antt =====
-- The lifecycle of a task.
use keviq_core.Prelude.{ℕ, ◌≡◌, ◌≢◌, ◌⊎◌, refl, inl, Bool, true, false, arith}
use keviq_core.Errors.{Error, invalid_transition, terminal_state, Result, ok, err}
use keviq_core.Machine.{Reach, here, next, fire}
use keviq_core.Orchestrator.Task
use keviq_core.Orchestrator.Task.{
  Task, TaskStatus, draft, pending, running, waiting_approval, completed, failed, cancelled,
  archived, task_machine,
}

-- The methods of `Task` that move it.
pub data TaskCall : Type 0 where
  submits starts requests_approval approves completes fails cancels retries archives : TaskCall

unfoldable pub call : TaskCall → ℕ → Task → Result (TaskStatus × Task)
unfolding Task.submit Task.start Task.request_approval Task.approve Task.complete Task.fail
    Task.cancel Task.retry Task.archive
call submits = Task.submit
call starts = Task.start
call requests_approval = Task.request_approval
call approves = Task.approve
call completes = Task.complete
call fails = Task.fail
call cancels = Task.cancel
call retries = Task.retry
call archives = Task.archive

-- The transitions that doc 05 lists, and the one from `draft` to `cancelled` that task.py adds.
pub data Follows : TaskStatus → TaskStatus → Type 0 where
  submitted : Follows draft pending
  discarded : Follows draft cancelled
  scheduled : Follows pending running
  withdrawn : Follows pending cancelled
  paused : Follows running waiting_approval
  finished : Follows running completed
  broken : Follows running failed
  stopped : Follows running cancelled
  approved : Follows waiting_approval running
  rejected : Follows waiting_approval cancelled
  shelved : Follows completed archived
  resubmitted : Follows failed pending
  buried : Follows failed archived
  dropped : Follows cancelled archived

ruleset diagram = (
  submitted, discarded, scheduled, withdrawn, paused, finished, broken, stopped, approved, rejected,
  shelved, resubmitted, buried, dropped,
)

-- The status that each method asks for.
abbrev pub target : TaskCall → TaskStatus
target submits = pending
target starts = running
target requests_approval = waiting_approval
target approves = running
target completes = completed
target fails = failed
target cancels = cancelled
target retries = pending
target archives = archived

-- A call that is accepted moves the task along a transition of the documentation to the status that
-- the method asks for, reports the old status, and changes only the status and `updated_at`.
pub call-Follows :
    (c : TaskCall) (now : ℕ) (t t' : Task) (prev : TaskStatus)
    → call c now t ≡ ok (prev, t')
    → (prev ≡ t.task_status)
      × Follows t.task_status (target c)
      × (t' ≡ record t { task_status = target c; updated_at = now })
unfolding call
call-Follows c now t t' prev h = (ground arith, grind (arith, diagram), ground arith)

-- Wherever the documentation has a transition, each method that asks for its end is accepted.
pub Follows-call :
    {s u : TaskStatus} (c : TaskCall) (now : ℕ) (t : Task)
    → Follows s u
    → t.task_status ≡ s
    → target c ≡ u
    → call c now t ≡ ok (s, record t { task_status = u; updated_at = now })
unfolding call
Follows-call c now t submitted q e = ground arith
Follows-call c now t _ q e = ground arith

-- A call that raises does so with `TerminalStateError` if the task is archived, and with
-- `InvalidTransitionError` if it is not.
pub call-err :
    (c : TaskCall) (now : ℕ) (t : Task) (x : Error)
    → call c now t ≡ err x
    → (x ≡ terminal_state) × (t.task_status ≡ archived)
      ⊎ (x ≡ invalid_transition) × (t.task_status ≢ archived)
unfolding call
call-err c now t x h = ground arith

abbrev pub is_over : TaskStatus → Bool
is_over completed = true
is_over cancelled = true
is_over archived = true
is_over _ = false

over-fire :
    (s t u : TaskStatus)
    → is_over s ≡ true
    → (t ≡ s) ⊎ (t ≡ archived)
    → fire task_machine t u ≡ ok u
    → (u ≡ s) ⊎ (u ≡ archived)
unfolding fire
over-fire s t u e h f = ground arith

-- No way back: whatever is done with a task that is completed, cancelled or archived, its status
-- stays or becomes archived.
pub over-settles :
    (s t : TaskStatus) → is_over s ≡ true → Reach task_machine s t → (t ≡ s) ⊎ (t ≡ archived)
over-settles s t e here = inl refl
over-settles s t e (next u r f) = over-fire s _ u e (over-settles s _ e r) f
