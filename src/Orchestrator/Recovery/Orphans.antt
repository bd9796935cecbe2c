-- ===== src/Orchestrator/Recovery/Orphans.antt =====
-- What the sweep makes of a running task: spared while a run of it is active, settled otherwise.
use keviq_core.Prelude.{
  ℕ, ◌+◌, ◌≤◌, ◌≡◌, ◌≢◌, refl, sym, ap, ◌∙◌, inl, inr, Bool, true, false, ◌&&◌, Option, none, some,
  List, [], ◌∷◌, map, arith, ◌==◌, ltb, if◌then◌else◌, is_nil, Bool-cases, eq→==, All, All-implies,
  where_test, member, Option-cases,
}
use keviq_core.Prelude.Tables
use keviq_core.Orchestrator.Task
use keviq_core.Orchestrator.Task.{Task, TaskStatus}
use keviq_core.Orchestrator.Task.Brief.{IsSound}
use keviq_core.Orchestrator.Run
use keviq_core.Orchestrator.Run.{Run, RunStatus}
use keviq_core.Orchestrator.Session.{Session, with_uow}
use keviq_core.Orchestrator.Repositories.{
  task_at, run_at, get_task-found, latest, later, list_active_by_task, get_latest_by_task,
  save_task, is_running_task,
}
use keviq_core.Orchestrator.Moves.{Returns, returned, Returns-close, Returns-recover}
use keviq_core.Orchestrator.Recovery.{
  RecoveryResult, latest_completed, settle_task, settle_orphan, unless_active, recover_loaded_task,
  recover_single_task,
}

-- The test of the query for the active runs of a task.
abbrev pub live_run : ℕ → Run → Bool
live_run task_id r = (r.task_id == task_id) && Run.is_active r.run_status

is_nil-map-member :
    (f : Run → Run) (k : ℕ) (rows : List Run)
    → member k (map (λ (r : Run). r.id) rows) ≡ true
    → is_nil (map f rows) ≡ false
is_nil-map-member f k [] h = ground arith
is_nil-map-member f k (r ∷ rows) h = refl

none-live :
    (task_id : ℕ) (rows : List Run)
    → All (λ (r : Run). live_run task_id r ≡ false) rows
    → where_test (live_run task_id) rows ≡ []
none-live task_id [] h = refl
none-live task_id (r ∷ rows) (h, hs) = rw (h, none-live task_id rows hs) refl

-- How the sweep ends a task: by its run with the greatest creation time.
abbrev pub verdict : (task_id : ℕ) → Session → TaskStatus
verdict task_id s =
    if latest_completed (latest (where_test (λ r. r.task_id == task_id) s.committed.runs))
    then TaskStatus.completed
    else TaskStatus.failed

-- The call has a result, and the task is committed with that status.
abbrev pub Settled : (task_id : ℕ) → Session → Option RecoveryResult → Session → Type 0
Settled task_id s result s' =
    (result ≢ none)
    × ((t' : Task) × (task_at s'.committed task_id ≡ some t')
        × (t'.task_status ≡ verdict task_id s))

module _ (task_id workspace_id : ℕ) (t : Task) (s : Session)
    (found : task_at s.committed task_id ≡ some t) (sound : IsSound t)
    (running : t.task_status ≡ TaskStatus.running) where
  -- A stored task that is sound and running and has an active run is left alone: the call returns
  -- None, and every table and the outbox are as they were.
  pub recover_single_task-spares :
      (k : ℕ) (r : Run)
      → run_at s.committed k ≡ some r
      → r.task_id ≡ task_id
      → Run.is_active r.run_status ≡ true
      → Returns
          (λ result s'. (result ≡ none) × (s'.committed ≡ s.committed))
          (recover_single_task task_id workspace_id s)
  unfolding recover_single_task with_uow recover_loaded_task list_active_by_task unless_active
  recover_single_task-spares k r at own live =
      let s' : Session = record s { db = s.committed; draws = s.draws + 1 } in
      let busy = is_nil-map-member Run.reload k (where_test (live_run task_id) s.committed.runs) (
        Tables.member-where_test (λ (q : Run). q.id) (live_run task_id) k s.committed.runs r at
          (rw (eq→== r.task_id task_id own, live) refl)) in
      rw (get_task-found s' task_id t found sound)
        (rw running (rw busy (returned none _ (refl, refl))))

  module _ (corr : ℕ) (reads draws : ℕ) (named : t.id ≡ task_id) where
    abbrev opened : Session
    opened = record s { db = s.committed; reads = reads; draws = draws }

    kept :
        (t' : Task)
        → t'.id ≡ t.id
        → Tables.find (λ (x : Task). x.id) task_id (Tables.save (λ x. x.id) t' s.committed.tasks)
          ≡ some t'
    kept t' e = Tables.find-save_self (λ (x : Task). x.id) task_id t' s.committed.tasks (e ∙ named)

    settle_orphan-Settled :
        Returns (Settled task_id s) (settle_orphan corr task_id workspace_id t opened)
    unfolding settle_orphan get_latest_by_task settle_task save_task Run.reload
    settle_orphan-Settled =
        elim (Option-cases (latest (where_test (λ r. r.task_id == task_id) s.committed.runs))) [
          | inl e ↦ rw e (
              rw (Task.Moves.fail-running t (s.clock reads) running)
                (returned _ _ (λ h. cc, (_, kept _ refl, rw e refl))))
          | inr (r, e) ↦ elim (Bool-cases (latest_completed (some r))) [
            | inl p ↦
                rw (e, p)
                  (rw (Task.Moves.complete-running t (s.clock reads) running)
                    (returned _ _ (λ h. cc, (_, kept _ refl, rw (e, p) refl))))
            | inr p ↦
                rw (e, p)
                  (rw (Task.Moves.fail-running t (s.clock reads) running)
                    (returned _ _ (λ h. cc, (_, kept _ refl, rw (e, p) refl))))
          ]
        ]

  -- A stored task that is sound and running and none of whose stored runs is active is settled: the
  -- call returns a result, and the task is committed as completed if its latest run is completed, and
  -- as failed if that run is anything else or there is no run at all.
  pub recover_single_task-settles :
      All (λ (r : Run). live_run task_id r ≡ false) s.committed.runs
      → Returns (Settled task_id s) (recover_single_task task_id workspace_id s)
  unfolding recover_single_task with_uow recover_loaded_task list_active_by_task unless_active
  recover_single_task-settles idle =
      let is : is_running_task t.task_status ≡ true = rw running refl in
      let s' : Session = record s { db = s.committed; draws = s.draws + 1 } in
      let named = Tables.key-find (λ (x : Task). x.id) task_id s.committed.tasks t found in
      rw (get_task-found s' task_id t found sound) (
        rw is (
          rw (none-live task_id s.committed.runs idle) (
            Returns-recover _ (
              Returns-close (settle_orphan-Settled (s.uuids s.draws) s.reads (s.draws + 1) named)
                λ _ _ h. h))))

latest-some : (q : Run) (rows : List Run) → latest (q ∷ rows) ≢ none
unfolding latest
latest-some q rows h = ground arith

latest-later :
    (q m r : Run)
    → later q (some m) ≡ some r
    → (q.created_at ≤ r.created_at) × (m.created_at ≤ r.created_at)
latest-later q m r h = elim (Bool-cases (ltb q.created_at m.created_at)) [
  | inl p ↦ ground arith
  | inr p ↦ ground arith
]

-- The run that the verdict goes by was created no earlier than any other one of the list.
pub latest-newest :
    (rows : List Run) (r : Run)
    → latest rows ≡ some r
    → All (λ (q : Run). q.created_at ≤ r.created_at) rows
unfolding latest
latest-newest [] r h = tt
latest-newest (q ∷ []) r h = ground arith
latest-newest (q ∷ p ∷ rows) r h = elim (Option-cases (latest (p ∷ rows))) [
  | inl e ↦ absurd (latest-some p rows e)
  | inr (m, e) ↦
      let (q_le, m_le) = latest-later q m r (ap (later q) (sym e) ∙ h) in
      (q_le, All-implies (p ∷ rows) (λ x x_le. omega arith) (latest-newest (p ∷ rows) m e))
]
