-- ===== src/Sandboxes/Recovery/Sweeps.antt =====
-- What the sweep does to the tables, whatever the backend does.
use keviq_core.Prelude.{
  ℕ, ◌+◌, ◌*◌, ◌≤◌, ◌⊎◌, ◌-◌, ◌==◌, ◌≡◌, refl, sym, ap, ◌∙◌, String, Bool, true, false, Option,
  none, some, List, [], ◌∷◌, All, ltb, Bool-cases, Option-cases, ==→eq, inl, inr, arith,
}
use mathlib.Core.Path.{subst}
use keviq_core.Prelude.Tables
use keviq_core.Errors.{Error, Result, ok, Result-cases}
use keviq_core.Transaction.Returns.{
  Returns, returned, Returns-bind, Returns-recover, Returns-weaken,
}
use keviq_core.Sandboxes.Sandbox
use keviq_core.Sandboxes.Sandbox.{
  Sandbox, SandboxStatus, ErrorDetail, provisioning, executing, failed,
}
use keviq_core.Sandboxes.Store.{
  Db, Session, can_be_stuck, list_stuck, save, get_by_id, write, commit, with_uow, ◌>>=◌,
}
use keviq_core.Sandboxes.Recovery.{
  stuck_detail, clean, stop_alive, mark, reconcile, recover_single_sandbox, recover_all, threshold,
  shorter, minutes, recover_stuck_sandboxes,
}

-- The row of an identifier is as it was, or it was stuck and has failed.
pub data Row (o : Option Sandbox) : Option Sandbox → Type 0 where
  same : Row o o
  marked :
      (b b' : Sandbox)
      → o ≡ some b
      → can_be_stuck b.sandbox_status ≡ true
      → b'.sandbox_status ≡ failed
      → Row o (some b')

-- Every row is as it was, or has failed, and no attempt has changed.
pub record Swept (c d : Db) : Type 0 where
  pub rows :
      (id : ℕ)
      → Row (Tables.find (λ r. r.id) id c.sandboxes) (Tables.find (λ r. r.id) id d.sandboxes)
  pub attempts : d.attempts ≡ c.attempts

-- The sandbox, if it exists, is neither provisioning nor executing.
abbrev pub IsSettled : ℕ → Db → Type 0
IsSettled id d =
    (b : Sandbox)
    → Tables.find (λ r. r.id) id d.sandboxes ≡ some b
    → can_be_stuck b.sandbox_status ≡ false

Swept-self : (c : Db) → Swept c c
Swept-self c = record { rows = λ id. same; attempts = refl }

Row-trans : (o p q : Option Sandbox) → Row o p → Row p q → Row o q
Row-trans o p q r same = r
Row-trans o p _ same (marked b b' e k h) = marked b b' e k h
Row-trans o _ _ (marked a a' e k h) (marked b b' e' k' h') = marked a b' e k h'

Swept-trans : (b c d : Db) → Swept b c → Swept c d → Swept b d
Swept-trans b c d h k = record {
  rows = λ id. Row-trans _ _ _ (h.rows id) (k.rows id);
  attempts = k.attempts ∙ h.attempts;
}

Row-settled :
    (o p : Option Sandbox)
    → Row o p
    → ((b : Sandbox) → o ≡ some b → can_be_stuck b.sandbox_status ≡ false)
    → (b : Sandbox) → p ≡ some b
    → can_be_stuck b.sandbox_status ≡ false
Row-settled o _ same h b e = h b e
Row-settled o _ (marked a a' _ _ f) h b e = ground (arith, f, e)

Row-saved :
    (rows : List Sandbox) (key : ℕ) (b b' : Sandbox)
    → Tables.find (λ r. r.id) key rows ≡ some b
    → can_be_stuck b.sandbox_status ≡ true
    → b'.id ≡ key
    → b'.sandbox_status ≡ failed
    → (id : ℕ)
    → Row
        (Tables.find (λ r. r.id) id rows)
        (Tables.find (λ r. r.id) id (Tables.save (λ r. r.id) b' rows))
Row-saved rows key b b' found stuck e f id =
    rw (Tables.find-save (λ r. r.id) id b' rows) (elim (Bool-cases (b'.id == id)) [
      | inl here ↦
          let at : id ≡ key = sym (==→eq b'.id id here) ∙ e in
          rw here (marked b b' (ap (λ k. Tables.find (λ r. r.id) k rows) at ∙ found) stuck f)
      | inr there ↦ rw there same
    ])

ok_injective : {a b : List Sandbox} → ok a ≡ ok b → a ≡ b
ok_injective e = cc

unstuck :
    {o : Option Sandbox} {a b : Sandbox}
    → o ≡ some b
    → can_be_stuck b.sandbox_status ≡ false
    → o ≡ some a
    → can_be_stuck a.sandbox_status ≡ false
unstuck {b = b} e h k = ground (arith, e, h, k)

absent :
    {o : Option Sandbox} {a : Sandbox}
    → o ≡ none
    → o ≡ some a
    → can_be_stuck a.sandbox_status ≡ false
absent e k = cc

-- The sandbox has been provisioning for so many minutes without a change, or executing for so many.
abbrev pub IsOverdue : (provisioning_timeout executing_timeout start : ℕ) → Sandbox → Type 0
IsOverdue provisioning_timeout executing_timeout start b =
    (b.sandbox_status ≡ provisioning) × (b.updated_at + provisioning_timeout * 60000000 ≤ start)
    ⊎ (b.sandbox_status ≡ executing) × (b.updated_at + executing_timeout * 60000000 ≤ start)

recent-IsOverdue :
    (pt et start : ℕ) (b : Sandbox)
    → ltb (start - threshold pt et b.sandbox_status) b.updated_at ≡ true
    → ¬ IsOverdue pt et start b
recent-IsOverdue pt et start b recent (inl (status, late)) =
    let soon : ltb (start - pt * 60000000) b.updated_at ≡ true = rw status at recent in ground arith
recent-IsOverdue pt et start b recent (inr (status, late)) =
    let soon : ltb (start - et * 60000000) b.updated_at ≡ true = rw status at recent in ground arith

module _ (show_error : Error → String) (is_alive : ℕ → Result Bool)
    (backend_terminate : ℕ → Result (Unit {0})) where
  clean-Returns :
      (id : ℕ) (s : Session)
      → Returns
          (λ _ s'. (s'.committed ≡ s.committed))
          (clean show_error is_alive backend_terminate id s)
  unfolding clean stop_alive
  clean-Returns id s = elim (Result-cases (is_alive id)) [
    | inr (e, down) ↦ rw down (returned _ _ refl)
    | inl (false, up) ↦ rw up (returned _ _ refl)
    | inl (true, up) ↦ elim (Result-cases (backend_terminate id)) [
      | inl (u, done) ↦ rw (up, done) (returned _ _ refl)
      | inr (e, refused) ↦ rw (up, refused) (returned _ _ refl)
    ]
  ]

  reconcile-Returns :
      (id workspace_id correlation_id : ℕ) (previous : SandboxStatus) (cleaned : Bool) (t : Session)
      → Returns
          (λ _ s'. Swept t.committed s'.committed × IsSettled id s'.committed)
          (with_uow
            (do
              found ← get_by_id id
              reconcile show_error is_alive backend_terminate id workspace_id correlation_id
                  previous cleaned found)
            t)
  unfolding with_uow get_by_id reconcile mark save write commit
  reconcile-Returns id workspace_id correlation_id previous cleaned t =
      elim (Option-cases (Tables.find (λ r. r.id) id t.committed.sandboxes)) [
        | inl missing ↦ rw missing (returned _ _ (Swept-self t.committed, λ b e. absent missing e))
        | inr (b, found) ↦ elim (Bool-cases (Sandbox.sandbox_terminal b.sandbox_status)) [
          | inl over ↦
              let settled : can_be_stuck b.sandbox_status ≡ false = ground (arith, over) in
              rw (found, over, reconcile)
                (returned _ _ (Swept-self t.committed, λ a e. unstuck found settled e))
          | inr alive ↦ elim (Bool-cases (can_be_stuck b.sandbox_status)) [
            | inr settled ↦
                rw (found, alive, settled, reconcile)
                  (returned _ _ (Swept-self t.committed, λ a e. unstuck found settled e))
            | inl stuck ↦
                let live : Sandbox.sandbox_transitions b.sandbox_status failed ≡ true =
                  ground (arith, stuck) in
                let b' = record b {
                  sandbox_status = failed;
                  updated_at = t.clock t.reads;
                  error_detail = some (stuck_detail previous cleaned);
                } in
                let same_id = Tables.key-find (λ r. r.id) id t.committed.sandboxes b found in
                rw (found, alive, stuck, live, reconcile)
                  (returned _ _ (
                    record {
                      rows = Row-saved t.committed.sandboxes id b b' found stuck same_id refl;
                      attempts = refl;
                    },
                    λ a e.
                        unstuck
                          (Tables.find-save_self (λ r. r.id) id b' t.committed.sandboxes same_id)
                          refl e,
                  ))
          ]
        ]
      ]

  -- A sandbox that the sweep takes up is provisioning and executing no more, and no other has changed.
  pub recover_single_sandbox-Returns :
      (id workspace_id : ℕ) (previous : SandboxStatus) (s : Session)
      → Returns
          (λ _ s'. Swept s.committed s'.committed × IsSettled id s'.committed)
          (recover_single_sandbox show_error is_alive backend_terminate id workspace_id previous s)
  unfolding recover_single_sandbox
  recover_single_sandbox-Returns id workspace_id previous s =
      Returns-bind (clean-Returns id (record s { draws = s.draws + 1 })) (λ cleaned t kept.
        let before : Swept s.committed t.committed = rw kept (Swept-self s.committed) in
        Returns-weaken
          (Returns-recover _
            (reconcile-Returns id workspace_id (s.uuids s.draws) previous cleaned t))
          (λ a s' (swept, settled).
            (Swept-trans s.committed t.committed s'.committed before swept, settled)))

  IsSettled-Swept : (id : ℕ) (c d : Db) → Swept c d → IsSettled id c → IsSettled id d
  IsSettled-Swept id c d h k = Row-settled _ _ (h.rows id) k

  recover_all-Returns :
      (pt et start : ℕ) (listed : List Sandbox) (s : Session)
      → Returns
          (λ _ s'.
            Swept s.committed s'.committed
            × All (λ b. IsOverdue pt et start b → IsSettled b.id s'.committed) listed)
          (recover_all show_error is_alive backend_terminate pt et start listed s)
  unfolding recover_all
  recover_all-Returns pt et start [] s = returned _ _ (Swept-self s.committed, tt)
  recover_all-Returns pt et start (b ∷ rest) s =
      elim (Bool-cases (ltb (start - threshold pt et b.sandbox_status) b.updated_at)) [
        | inl recent ↦ rw recent (
            Returns-weaken (recover_all-Returns pt et start rest s) (λ _ s' (swept, done).
              (swept, (λ late. absurd (recent-IsOverdue pt et start b recent late), done))))
        | inr late ↦
            rw (late, recover_all)
              (Returns-bind (recover_single_sandbox-Returns b.id b.workspace_id b.sandbox_status s)
                (λ a t (swept, settled).
                  Returns-bind (recover_all-Returns pt et start rest t) (λ more s' (swept', done).
                    returned _ _ (
                      Swept-trans s.committed t.committed s'.committed swept swept',
                      (λ _. IsSettled-Swept b.id t.committed s'.committed swept' settled, done),
                    ))))
      ]

  -- A sweep returns, whatever the backend does. It changes no attempt, and no sandbox but those that are
  -- provisioning or executing, which fail; and of the sandboxes that it lists none that has been unchanged
  -- for the time for its status or longer is left provisioning or executing.
  pub recover_stuck_sandboxes-Returns :
      (provisioning_timeout executing_timeout : ℕ) (listed : List Sandbox) (s : Session)
      → (list_stuck
          (s.clock s.reads - minutes (shorter provisioning_timeout executing_timeout))
          (record s { db = s.committed; reads = s.reads + 1 })).0
        ≡ ok listed
      → Returns
          (λ _ s'.
            Swept s.committed s'.committed
            × All
                (λ b.
                  IsOverdue provisioning_timeout executing_timeout (s.clock s.reads) b
                  → IsSettled b.id s'.committed)
                listed)
          (recover_stuck_sandboxes show_error is_alive backend_terminate provisioning_timeout
            executing_timeout s)
  unfolding recover_stuck_sandboxes list_stuck with_uow
  recover_stuck_sandboxes-Returns provisioning_timeout executing_timeout listed s e =
      Returns-weaken
        (recover_all-Returns provisioning_timeout executing_timeout (s.clock s.reads) _
          (record s { db = s.committed; reads = s.reads + 1 }))
        (λ _ s' (swept, done). (
          swept,
          subst
              (λ l.
                All
                  (λ b.
                    IsOverdue provisioning_timeout executing_timeout (s.clock s.reads) b
                    → IsSettled b.id s'.committed)
                  l)
              (ok_injective e) done,
        ))
