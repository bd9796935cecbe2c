-- ===== src/Orchestrator/Dispatch/Starts.antt =====
-- The first transaction of an execution: the task, a run of it and a step of the run are running.
use keviq_core.Prelude.{ℕ, ◌+◌, ◌≡◌, refl, ◌∙◌, true, false, none, some, ltb}
use keviq_core.Orchestrator.Task
use keviq_core.Orchestrator.Task.{Task, TaskStatus}
use keviq_core.Orchestrator.Task.Brief.{IsSound}
use keviq_core.Orchestrator.Run
use keviq_core.Orchestrator.Run.{Run, RunStatus}
use keviq_core.Orchestrator.Step
use keviq_core.Orchestrator.Step.{Step, StepStatus}
use keviq_core.Orchestrator.Session.{Session}
use keviq_core.Orchestrator.Repositories.{fits, task_at, run_at, IsMeasurable}
use keviq_core.Orchestrator.Moves.{
  Returns, returned, Returns-bind, OnlyRun, OnlyStep, move_task-Returns, move_run-once-Returns,
  move_run-twice-Returns, move_step-Returns, OnlyTask-found, OnlyRun-found, OnlyStep-found,
}
use keviq_core.Orchestrator.Execution.Finish.{AreRunning}
use keviq_core.Orchestrator.Dispatch.{Started, start_execution, prepare_run, create_step}

-- The three rows are committed as running under the keys that the code keeps, the run as one of the
-- task and the step as one of the run.
abbrev pub IsStarted : (task : Task) (s : Session) → Started → Session → Type 0
IsStarted task s e s' =
    (e.task.id ≡ task.id)
    × AreRunning s'.committed e.task.id e.run.id e.step.id e.task e.run e.step
    × (s'.port_calls ≡ s.port_calls)
    × (e.run.task_id ≡ e.task.id)
    × (e.step.run_id ≡ e.run.id)
    × IsMeasurable s' e.run

prepare_run-Returns :
    (r : Run) (s : Session)
    → r.run_status ≡ RunStatus.queued
    → r.duration_ms ≡ none
    → Returns
        (λ r' s'.
          (r'.task_id ≡ r.task_id)
          × (r'.run_status ≡ RunStatus.preparing)
          × (r'.started_at ≡ r.started_at)
          × (r'.duration_ms ≡ none)
          × OnlyRun r' s s')
        (prepare_run r s)
unfolding prepare_run
prepare_run-Returns r s h unmeasured =
    let small : fits r.duration_ms ≡ true = rw unmeasured refl in
    rw (Run.Moves.prepare-queued r (s.clock s.reads) 0 h, small)
      (returned _ _ (
        refl,
        refl,
        refl,
        unmeasured,
        record {
          tasks = refl;
          runs = refl;
          steps = refl;
          committed = refl;
          port_calls = refl;
          clock = refl;
        },
      ))

create_step-Returns :
    (run_id workspace_id : ℕ) (s : Session)
    → Returns
        (λ q s'.
          (q.step_status ≡ StepStatus.pending)
          × (q.sequence ≡ 1)
          × (q.run_id ≡ run_id)
          × OnlyStep q s s')
        (create_step run_id workspace_id s)
unfolding create_step
create_step-Returns run_id workspace_id s = returned _ _ (
  refl,
  refl,
  refl,
  record {
    tasks = refl;
    runs = refl;
    steps = refl;
    committed = refl;
    port_calls = refl;
    clock = refl;
  },
)

module _ (task : Task) (s : Session) (pending : task.task_status ≡ TaskStatus.pending)
    (sound : IsSound task)
    (short : (m n : ℕ) → fits (Run.compute_duration (some (s.clock m)) (s.clock n)) ≡ true) where
  -- A sound pending task is started: the code returns, having committed the task, a new run of it and
  -- a first step of the run as running.
  pub start_execution-starts : Returns (IsStarted task s) (start_execution task s)
  unfolding start_execution Run.new
  start_execution-starts =
      Returns-bind
        (move_task-Returns _ _ _
          (λ t. (t.id ≡ task.id) × (t.task_status ≡ TaskStatus.running) × IsSound t) _ _
          (λ t₁. Task.Moves.start-pending task t₁ pending)
          (λ _. (refl, refl, record { titled = sound.titled; rated = sound.rated })))
        λ (t, _) s₁ (dt, ot).
          Returns-bind
            (move_run-once-Returns _ _ _
              (λ r.
                (r.run_status ≡ RunStatus.queued)
                × (r.task_id ≡ t.id)
                × (r.started_at ≡ none)
                × (r.duration_ms ≡ none))
              _ _ (λ _. refl) (λ _. (refl, refl, refl, refl)) (λ _. refl))
            λ (r, _) s₂ (dr, or).
              Returns-bind (prepare_run-Returns r _ dr.0 dr.3)
                λ r₁ s₂' (own₁, dr₁, begun₁, new₁, or₁).
                  Returns-bind
                    (move_run-twice-Returns _ _ _
                      (λ r'.
                        (r'.run_status ≡ RunStatus.running)
                        × (r'.task_id ≡ r₁.task_id)
                        × (r'.duration_ms ≡ none)
                        × ((n : ℕ) × (r'.started_at ≡ some (s₂'.clock n))))
                      _ _ (λ t₁ t₂. Run.Moves.start-preparing r₁ t₁ t₂ dr₁)
                      (refl, refl, new₁, (s₂'.reads + 1, rw (begun₁, dr.2) refl)) (rw new₁ refl))
                    λ (r', _) s₃ (dr', or').
                      Returns-bind (create_step-Returns _ _ _) λ q₁ s₃' (dq₁, nq₁, rq₁, oq₁).
                        Returns-bind
                          (move_step-Returns _ _ _
                            (λ q.
                              (q.step_status ≡ StepStatus.running)
                              × (q.sequence ≡ 1)
                              × (q.run_id ≡ r'.id))
                            _ _ (λ t₁ t₂. Step.Moves.start-pending q₁ t₁ t₂ _ dq₁)
                            (λ _ _. (refl, nq₁, rq₁)))
                          λ (q, _) s₄ (dq, oq).
                            let kept_task : task_at s₄.db t.id ≡ some t =
                              rw (oq.tasks, oq₁.tasks, or'.tasks, or₁.tasks, or.tasks)
                                (OnlyTask-found t.id ot refl) in
                            let kept_run : run_at s₄.db r'.id ≡ some r' =
                              rw (oq.runs, oq₁.runs) (OnlyRun-found r'.id or' refl) in
                            let first : ltb q.sequence 1 ≡ false = rw dq.1 refl in
                            let early : s₂'.clock ≡ s.clock = or₁.clock ∙ or.clock ∙ ot.clock in
                            let late : s₄.clock ≡ s.clock =
                              oq.clock ∙ oq₁.clock ∙ or'.clock ∙ early in
                            returned _ (record s₄ { committed = s₄.db })
                              (
                                dt.0,
                                record {
                                  at_task = kept_task;
                                  at_run = kept_run;
                                  at_step = OnlyStep-found q.id oq refl;
                                  sound = dt.2;
                                  numbered = first;
                                  task_running = dt.1;
                                  run_running = dr'.0;
                                  step_running = dq.0;
                                },
                                oq.port_calls ∙ oq₁.port_calls ∙ or'.port_calls ∙ or₁.port_calls
                                    ∙ or.port_calls ∙ ot.port_calls,
                                dr'.1 ∙ own₁ ∙ dr.1,
                                dq.2,
                                record {
                                  measured = rw dr'.2 refl;
                                  at = λ n. rw (dr'.3.1, early, late) (short dr'.3.0 n);
                                },
                              )
