-- ===== src/Orchestrator/Handlers/Commands.antt =====
-- The handlers of one task as one operation: nothing on failure, all on success.
use keviq_core.Prelude.{
  ℕ, ◌+◌, ◌≡◌, Option, some, List, length, length-snoc, arith, ◌==◌, if◌then◌else◌,
}
use keviq_core.Prelude.Tables
use keviq_core.Errors.{Error, ok, err}
use keviq_core.Orchestrator.Task.{Task}
use keviq_core.Orchestrator.Task.Brief.{BriefField}
use keviq_core.Orchestrator.Session.{Session, Tx}
use keviq_core.Orchestrator.Handlers.{
  SubmitTask, CreateTaskDraft, handle_submit_task, handle_create_draft, handle_update_brief,
  handle_launch_task, handle_retry_task,
}

pub data Command : Type 0 where
  submits : SubmitTask → Command
  drafts : CreateTaskDraft → Command
  updates : (task_id : ℕ) → List BriefField → Command
  launches retries : (task_id by : ℕ) → Command

unfoldable pub handle : Command → Tx Task
unfolding handle_submit_task handle_create_draft handle_update_brief handle_launch_task
    handle_retry_task
handle (submits cmd) = handle_submit_task cmd
handle (drafts cmd) = handle_create_draft cmd
handle (updates task_id fields) = handle_update_brief task_id fields
handle (launches task_id by) = handle_launch_task task_id by
handle (retries task_id by) = handle_retry_task task_id by

-- A command that raises, at whatever point, leaves every table and the outbox as they were.
pub handle-atomic :
    (c : Command) (s : Session) (e : Error)
    → (handle c s).0 ≡ err e
    → ((handle c s).1.committed ≡ s.committed) × ((handle c s).1.db ≡ s.committed)
unfolding handle
handle-atomic c s e h = ground arith

abbrev pub stored : Session → ℕ → Option Task
stored s id = Tables.find (λ r. r.id) id s.committed.tasks

-- The events that a command writes.
abbrev pub announced : Command → ℕ
announced (submits _) = 1
announced (drafts _) = 0
announced (updates _ _) = 0
announced (launches _ _) = 1
announced (retries _ _) = 1

tasks-handle :
    (c : Command) (s : Session) (t : Task)
    → (handle c s).0 ≡ ok t
    → (handle c s).1.committed.tasks ≡ Tables.save (λ r. r.id) t s.committed.tasks
unfolding handle
tasks-handle c s t h = ground arith

outbox-handle :
    (c : Command) (s : Session) (t : Task)
    → (handle c s).0 ≡ ok t
    → length (handle c s).1.committed.outbox ≡ length s.committed.outbox + announced c
unfolding handle
outbox-handle c s t h = grind (arith, length-snoc)

others-handle :
    (c : Command) (s : Session) (t : Task)
    → (handle c s).0 ≡ ok t
    → let d = (handle c s).1.committed in
      (d.runs ≡ s.committed.runs)
      × (d.steps ≡ s.committed.steps)
      × (d.approvals ≡ s.committed.approvals)
unfolding handle
others-handle c s t h = ground arith

-- A command that returns a task has committed it: that task is stored as it is returned and every
-- other one as it was, no run, step or approval has changed, and the outbox has one event more for a
-- submission, a launch or a retry, and as many as before for a draft or an update.
pub handle-commits :
    (c : Command) (s : Session) (t : Task) (k : ℕ)
    → (handle c s).0 ≡ ok t
    → let s' = (handle c s).1 in
      (stored s' k ≡ (if t.id == k then some t else stored s k))
      × (s'.committed.runs ≡ s.committed.runs)
      × (s'.committed.steps ≡ s.committed.steps)
      × (s'.committed.approvals ≡ s.committed.approvals)
      × (length s'.committed.outbox ≡ length s.committed.outbox + announced c)
handle-commits c s t k h =
    let (runs, steps, approvals) = others-handle c s t h in
    (
      rw (tasks-handle c s t h) (Tables.find-save (λ r. r.id) k t s.committed.tasks),
      runs,
      steps,
      approvals,
      outbox-handle c s t h,
    )
