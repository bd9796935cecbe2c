-- ===== src/Sandboxes/Provisioning/Ends.antt =====
-- Where provisioning and termination leave a sandbox, whatever the backend does.
use keviq_core.Prelude.{
  ℕ, ◌≡◌, refl, String, Bool, true, false, some, inl, inr, List, [], ◌∷◌, ◌++◌, arith,
}
use keviq_core.Prelude.Tables
use keviq_core.Errors.{Error, Result, ok, err, Result-cases}
use keviq_core.Transaction.Returns.{Returns, returned}
use keviq_core.Sandboxes.Sandbox
use keviq_core.Sandboxes.Sandbox.{
  Sandbox, SandboxType, SandboxStatus, ready, executing, idle, failed, terminated, Fields,
}
use keviq_core.Sandboxes.Contracts.{
  SandboxProvisionRequest, SandboxProvisionResult, SandboxTerminationRequest,
}
use keviq_core.Sandboxes.Store.{Db, Session, provisions}
use keviq_core.Sandboxes.Provisioning.{
  parse_type, provision_sandbox, terminate_sandbox, provision_after, stop,
}

-- The stored sandbox has the status.
pub IsStored : Db → ℕ → SandboxStatus → Type 0
IsStored d id status =
    (b : Sandbox) × (Tables.find (λ r. r.id) id d.sandboxes ≡ some b) × (b.sandbox_status ≡ status)

-- What is answered and stored, by what the backend has come to.
abbrev pub Told : Result String → SandboxProvisionResult → Session → Type 0
Told (ok info) a s' = (a.status ≡ "ready") × IsStored s'.committed a.sandbox_id ready
Told (err e) a s' = (a.status ≡ "failed") × IsStored s'.committed a.sandbox_id failed

-- The statuses of a sandbox that is there and is not being provisioned or terminated.
abbrev pub is_there : SandboxStatus → Bool
is_there ready = true
is_there executing = true
is_there idle = true
is_there failed = true
is_there _ = false

module _ (show_error : Error → String) (backend_provision : ℕ → String → Result String)
    (backend_terminate : ℕ → Result (Unit {0})) where
  -- A request with a known type asks the backend once and returns: when the backend returned, with the answer
  -- ready and the sandbox stored as ready, and when it raised, with the answer failed and the sandbox stored
  -- as failed.
  pub provision_sandbox-Returns :
      (r : SandboxProvisionRequest Fields) (type : SandboxType) (s : Session)
      → parse_type r.sandbox_type ≡ ok type
      → Returns
          (λ a s'.
            (a.sandbox_id ≡ s.uuids s.draws)
            × Told (backend_provision (s.uuids s.draws) r.sandbox_type) a s'
            × (s'.port_calls ≡ s.port_calls ++ provisions (s.uuids s.draws) r.sandbox_type ∷ []))
          (provision_sandbox show_error backend_provision backend_terminate r s)
  unfolding provision_sandbox IsStored
  provision_sandbox-Returns r type s h =
      elim (Result-cases (backend_provision (s.uuids s.draws) r.sandbox_type)) [
        | inl (info, up) ↦
            rw (h, up, provision_after)
              (returned _ _ (
                refl,
                (refl, (_, Tables.find-save_self (λ r. r.id) (s.uuids s.draws) _ _ refl, refl)),
                refl,
              ))
        | inr (e, down) ↦
            rw (h, down, provision_after)
              (returned _ _ (
                refl,
                (refl, (_, Tables.find-save_self (λ r. r.id) (s.uuids s.draws) _ _ refl, refl)),
                refl,
              ))
      ]

  -- A sandbox that is ready, executing, idle or failed is terminated by one request, even where the backend
  -- raises.
  pub terminate_sandbox-Returns :
      (r : SandboxTerminationRequest) (b : Sandbox) (s : Session)
      → Tables.find (λ q. q.id) r.sandbox_id s.committed.sandboxes ≡ some b
      → is_there b.sandbox_status ≡ true
      → Returns
          (λ a s'. (a.status ≡ "terminated") × IsStored s'.committed r.sandbox_id terminated)
          (terminate_sandbox show_error backend_provision backend_terminate r s)
  unfolding terminate_sandbox IsStored
  terminate_sandbox-Returns r b s found there =
      let live : Sandbox.sandbox_transitions b.sandbox_status Sandbox.terminating ≡ true =
        ground (arith, there) in
      let alive : Sandbox.sandbox_terminal b.sandbox_status ≡ false = ground (arith, live) in
      let same = Tables.key-find (λ q. q.id) r.sandbox_id s.committed.sandboxes b found in
      let kept = λ (b' : Sandbox) (rows : List Sandbox) (e : b'.id ≡ r.sandbox_id).
        Tables.find-save_self (λ q. q.id) r.sandbox_id b' rows e in
      elim (Result-cases (backend_terminate r.sandbox_id)) [
        | inl (_, stopped) ↦
            rw (found, alive, live, stopped, stop) (returned _ _ (refl, (_, kept _ _ same, refl)))
        | inr (e, raised) ↦
            rw (found, alive, live, raised, stop) (returned _ _ (refl, (_, kept _ _ same, refl)))
      ]
