-- ===== src/Orchestrator/Examples/Commands.antt =====
-- The handlers of one task, at concrete tables.
use keviq_core.Prelude.{
  ◌+◌, ◌≡◌, refl, true, none, some, [], ◌∷◌, length, if◌then◌else◌, ◌==◌, is_blank,
}
use keviq_core.Prelude.Tables
use keviq_core.Errors.{ok, err, domain_error, domain_validation}
use keviq_core.Orchestrator.Task
use keviq_core.Orchestrator.Task.{Task, TaskStatus, draft, pending, failed}
use keviq_core.Orchestrator.Task.Brief.{IsSound}
use keviq_core.Orchestrator.Session.{Session}
use keviq_core.Orchestrator.Handlers.{handle_launch_task, handle_retry_task}
use keviq_core.Orchestrator.Handlers.Commands.{
  retries, launches, handle, stored, announced, handle-atomic, handle-commits,
}
use keviq_core.Orchestrator.Handlers.Launch.{IsReady, retry-skips_readiness}
use keviq_core.Orchestrator.Samples.{some_task, session, some_task-IsSound}

abbrev drafted : Session
drafted = session (some_task draft ∷ []) [] []

abbrev broken : Session
broken = session (some_task failed ∷ []) [] []

abbrev launched : Task
launched = record (some_task draft) { task_status = pending; updated_at = 100 }

missing_raises : (handle (launches 8 9) drafted).0 ≡ err domain_error
unfolding handle Tables.find
missing_raises = refl

handle-atomic_example :
    ((handle (launches 8 9) drafted).1.committed ≡ drafted.committed)
    × ((handle (launches 8 9) drafted).1.db ≡ drafted.committed)
handle-atomic_example = handle-atomic (launches 8 9) drafted domain_error missing_raises

abbrev retried : Task
retried = record (some_task failed) { task_status = pending; updated_at = 100 }

retry_returns : (handle (retries 1 9) broken).0 ≡ ok retried
unfolding handle Tables.find
retry_returns = refl

handle-commits_example :
    let s' = (handle (retries 1 9) broken).1 in
    (stored s' 1 ≡ (if retried.id == 1 then some retried else stored broken 1))
    × (s'.committed.runs ≡ broken.committed.runs)
    × (s'.committed.steps ≡ broken.committed.steps)
    × (s'.committed.approvals ≡ broken.committed.approvals)
    × (length s'.committed.outbox ≡ length broken.committed.outbox + announced (retries 1 9))
handle-commits_example = handle-commits (retries 1 9) broken retried 1 retry_returns

some_task-IsReady : IsReady (some_task draft)
unfolding is_blank Task.is_missing
some_task-IsReady = record {
  drafted = refl;
  titled = refl;
  aimed = refl;
  described = refl;
  staffed = refl;
}

-- A draft without a goal.
abbrev aimless : Task
aimless = record (some_task draft) { goal = none }

abbrev aimless_only : Session
aimless_only = session (aimless ∷ []) [] []

aimless_stored : stored aimless_only 1 ≡ some aimless
unfolding Tables.find
aimless_stored = refl

aimless-IsSound : IsSound aimless
aimless-IsSound = let v = some_task-IsSound draft in record { titled = v.titled; rated = v.rated }

aimless_missing : Task.is_missing aimless.goal ≡ true
unfolding Task.is_missing
aimless_missing = refl

retry-skips_readiness_example :
    ((handle_launch_task 1 9 aimless_only).0 ≡ err domain_validation)
    × ((handle_retry_task 1 9 aimless_only).0
        ≡ ok (record aimless { task_status = pending; updated_at = 100 }))
retry-skips_readiness_example =
    retry-skips_readiness 1 9 aimless_only aimless aimless_stored aimless-IsSound refl
      aimless_missing
