-- ===== src/Sandboxes/Exclusion/Single.antt =====
-- The executions that are in flight in one sandbox.
use keviq_core.Prelude.{ℕ, ◌≤◌, ◌<◌, ◌≡◌, refl, sym, String, Bool, false, none, inl, inr, arith}
use mathlib.Core.Path.{subst}
use keviq_core.Prelude.Tables
use keviq_core.Errors.{Error, Result, err, Result-cases}
use keviq_core.Transaction.Outcomes.{Outcome-ok, Outcome-err, Outcome-either}
use keviq_core.Transaction.Returns.{Returns-inv}
use keviq_core.Sandboxes.Store.{Session, claimable}
use keviq_core.Sandboxes.Tools.{ToolDefinition}
use keviq_core.Sandboxes.Execution.{Request, claim}
use keviq_core.Sandboxes.Execution.Claims.{claim-Outcome}
use keviq_core.Sandboxes.Execution.Settles.{settle-Outcome}
use keviq_core.Sandboxes.Recovery.Sweeps.{recover_single_sandbox-Returns}
use keviq_core.Sandboxes.Exclusion.{
  System, Step, claims, is_refused, settles, recovers, begins_termination, ends_termination,
  provisions, ends_provisioning, Reach, idle_from, next, count,
}
use keviq_core.Sandboxes.Exclusion.Writes.{
  IsBusy, IsBusy-save, IsBusy-Swept, IsBusy-Wrote, persist-sandboxes, begin_termination-Wrote,
}
use keviq_core.Sandboxes.Exclusion.Invariant.{
  IsExclusive, keep, claimable-count, at_most_one, end_one, open_one, close_one, read_tables,
  start_claim, Settled-other,
}

module _ (show_error : Error → String) (is_alive : ℕ → Result Bool)
    (backend_terminate : ℕ → Result (Unit {0})) where
  Step-IsExclusive :
      (x y : System)
      → Step show_error is_alive backend_terminate x y
      → IsExclusive x
      → IsExclusive y
  Step-IsExclusive x y (claims q tool execution_id correlation_id at b s e done to) h =
      let x' = record x { tables = s.committed } in
      let (c, _) = Outcome-ok b (claim-Outcome q tool execution_id correlation_id at s) done in
      subst IsExclusive (sym to) (start_claim x' q tool execution_id at b _ c (read_tables x s e h))
  Step-IsExclusive x y (is_refused q tool execution_id correlation_id at raised s e done to) h =
      let x' = record x { tables = s.committed } in
      let r = Outcome-err raised (claim-Outcome q tool execution_id correlation_id at s) done in
      subst IsExclusive (sym to) (keep x' _ (λ k was. rw r.committed was) (read_tables x s e h))
  Step-IsExclusive x y (settles q workspace_id correlation_id d payload s e mine to) h =
      let x' = record x { tables = s.committed } in
      subst IsExclusive (sym to) (
        end_one x' _ q.sandbox_id mine
          (λ k there was.
            Outcome-either (λ s'. IsBusy k s'.committed.sandboxes)
              (settle-Outcome q workspace_id correlation_id d payload s)
              (λ _ s' settled. Settled-other q d s.committed s' k settled there was)
              (λ s' same. rw same was))
          (read_tables x s e h))
  Step-IsExclusive x y (recovers id workspace_id previous s e to) h =
      let x' = record x { tables = s.committed } in
      let (_, _, (swept, _)) = Returns-inv (
        recover_single_sandbox-Returns show_error is_alive backend_terminate id workspace_id
          previous s) in
      subst IsExclusive (sym to)
        (keep x' _ (λ k was. IsBusy-Swept k s.committed _ swept was) (read_tables x s e h))
  Step-IsExclusive x y (begins_termination r correlation_id s e to) h =
      let x' = record x { tables = s.committed } in
      subst IsExclusive (sym to) (
        keep x' _ (λ k was. IsBusy-Wrote k _ _ (begin_termination-Wrote r correlation_id s) was)
          (read_tables x s e h))
  Step-IsExclusive x y (ends_termination b payload correlation_id s e over to) h =
      let x' = record x { tables = s.committed } in
      let busy : claimable b.sandbox_status ≡ false = rw over in
      subst IsExclusive (sym to) (
        keep x' _
          (λ k was. rw (persist-sandboxes b payload correlation_id s) (IsBusy-save k b _ busy was))
          (read_tables x s e h))
  Step-IsExclusive x y (provisions b payload correlation_id s e fresh new to) h =
      let x' = record x { tables = s.committed } in
      let busy : claimable b.sandbox_status ≡ false = rw fresh in
      let none_there : Tables.find (λ r. r.id) b.id s.committed.sandboxes ≡ none = rw e new in
      subst IsExclusive (sym to) (
        open_one x' _ b none_there busy (persist-sandboxes b payload correlation_id s)
          (read_tables x s e h))
  Step-IsExclusive x y (ends_provisioning b payload correlation_id s e mine to) h =
      let x' = record x { tables = s.committed } in
      subst IsExclusive (sym to)
        (close_one x' _ b mine (persist-sandboxes b payload correlation_id s) (read_tables x s e h))

  Reach-IsExclusive : (x : System) → Reach show_error is_alive backend_terminate x → IsExclusive x
  unfolding count
  Reach-IsExclusive _ (idle_from tables) = record {
    running = λ id. inl refl;
    pending = λ id p. absurd (omega (arith, p));
  }
  Reach-IsExclusive y (next {x = x} r step) = Step-IsExclusive x y step (Reach-IsExclusive x r)

  -- However the transactions of any number of callers follow each other, claims, releases, sweeps,
  -- terminations and provisionings: at most one execution is in flight in a sandbox.
  pub Reach-single :
      (x : System)
      → Reach show_error is_alive backend_terminate x
      → (id : ℕ) → count id x.running ≤ 1
  Reach-single x r id =
      at_most_one id x.running x.tables.sandboxes ((Reach-IsExclusive x r).running id)

  -- While an execution is in flight in a sandbox, however the transactions were interleaved, a claim of it
  -- raises.
  pub Reach-refuses :
      (x : System)
      → Reach show_error is_alive backend_terminate x
      → (q : Request) (tool : ToolDefinition) (execution_id correlation_id at : ℕ) (s : Session)
      → s.committed ≡ x.tables
      → 0 < count q.sandbox_id x.running
      → (e : Error) × ((claim q tool execution_id correlation_id at s).0 ≡ err e)
  Reach-refuses x r q tool execution_id correlation_id at s e some_id =
      elim (Result-cases (claim q tool execution_id correlation_id at s).0) [
        | inr raised ↦ raised
        | inl (b, done) ↦ absurd (
            let (c, _) =
              Outcome-ok b (claim-Outcome q tool execution_id correlation_id at s) done in
            let zero =
              claimable-count q.sandbox_id x.running s.committed.sandboxes c.before c.found
                c.was_free ((read_tables x s e (Reach-IsExclusive x r)).running q.sandbox_id) in
            omega (arith, zero))
      ]
