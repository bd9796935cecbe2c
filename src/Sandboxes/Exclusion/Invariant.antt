-- ===== src/Sandboxes/Exclusion/Invariant.antt =====
-- The executions in flight and the statuses of the sandboxes, through the transactions.
use keviq_core.Prelude.{
  ℕ, suc, ◌≤◌, ◌<◌, ◌==◌, ◌≡◌, ◌⊎◌, sym, ap, ◌∙◌, true, false, some, none, List, ◌∷◌, Bool-cases,
  ==→eq, inl, inr, arith,
}
use mathlib.Core.Path.{subst}
use keviq_core.Prelude.Tables
use keviq_core.Sandboxes.Sandbox.{Sandbox}
use keviq_core.Sandboxes.Store.{Db, Session, AttemptData, claimable}
use keviq_core.Sandboxes.Tools.{ToolDefinition}
use keviq_core.Sandboxes.Execution.{Request}
use keviq_core.Sandboxes.Execution.Claims.{Claimed}
use keviq_core.Sandboxes.Execution.Settles.{Settled}
use keviq_core.Sandboxes.Exclusion.{System, count, remove_one, remove_all}
use keviq_core.Sandboxes.Exclusion.Counts.{count-remove_one, count-remove_all}
use keviq_core.Sandboxes.Exclusion.Writes.{IsBusy, IsBusy-save, IsBusy-save_self, IsBusy-save_other}

-- No execution is in flight in the sandbox, or one is and the sandbox cannot be claimed.
abbrev pub Alone : ℕ → List ℕ → List Sandbox → Type 0
Alone id running rows = (count id running ≡ 0) ⊎ ((count id running ≡ 1) × IsBusy id rows)

pub record IsExclusive (x : System) : Type 0 where
  pub running : (id : ℕ) → Alone id x.running x.tables.sandboxes
  pub pending :
      (id : ℕ) → 0 < count id x.pending → (count id x.running ≡ 0) × IsBusy id x.tables.sandboxes

pub Alone-map :
    (id : ℕ) (running : List ℕ) (c d : List Sandbox)
    → (IsBusy id c → IsBusy id d)
    → Alone id running c
    → Alone id running d
Alone-map id running c d f (inl zero) = inl zero
Alone-map id running c d f (inr (one, busy)) = inr (one, f busy)

-- Tables where every busy sandbox still is.
pub keep :
    (x : System) (d : Db)
    → ((id : ℕ) → IsBusy id x.tables.sandboxes → IsBusy id d.sandboxes)
    → IsExclusive x
    → IsExclusive (record x { tables = d })
keep x d f h = record {
  running = λ id. Alone-map id x.running x.tables.sandboxes d.sandboxes (f id) (h.running id);
  pending = λ id p. let (zero, busy) = h.pending id p in (zero, f id busy);
}

pub free-IsBusy :
    (id : ℕ) (rows : List Sandbox) (b : Sandbox)
    → Tables.find (λ r. r.id) id rows ≡ some b
    → claimable b.sandbox_status ≡ true
    → ¬ IsBusy id rows
free-IsBusy id rows b found free busy =
    let same : busy.sandbox ≡ b = ground (arith, found, busy.found) in
    let bad : claimable b.sandbox_status ≡ false =
      ap (λ a. claimable a.sandbox_status) (sym same) ∙ busy.is_busy in
    cc

-- A sandbox that can be claimed has no execution in flight.
pub claimable-count :
    (id : ℕ) (running : List ℕ) (rows : List Sandbox) (b : Sandbox)
    → Tables.find (λ r. r.id) id rows ≡ some b
    → claimable b.sandbox_status ≡ true
    → Alone id running rows
    → count id running ≡ 0
claimable-count id running rows b found free (inl zero) = zero
claimable-count id running rows b found free (inr (one, busy)) =
    absurd (free-IsBusy id rows b found free busy)

pub at_most_one :
    (id : ℕ) (running : List ℕ) (rows : List Sandbox) → Alone id running rows → count id running ≤ 1
at_most_one id running rows (inl zero) = omega arith
at_most_one id running rows (inr (one, busy)) = omega arith

-- A new execution in a sandbox that could be claimed.
pub start_one :
    (x : System) (d : Db) (id : ℕ) (before b : Sandbox)
    → Tables.find (λ r. r.id) id x.tables.sandboxes ≡ some before
    → claimable before.sandbox_status ≡ true
    → b.id ≡ id
    → claimable b.sandbox_status ≡ false
    → d.sandboxes ≡ Tables.save (λ r. r.id) b x.tables.sandboxes
    → IsExclusive x
    → IsExclusive (record x { tables = d; running = id ∷ x.running })
unfolding count
start_one x d id before b found free e busy wrote h =
    let zero = claimable-count id x.running x.tables.sandboxes before found free (h.running id) in
    let kept = λ (k : ℕ) (was : IsBusy k x.tables.sandboxes).
      let now : IsBusy k d.sandboxes = rw wrote (IsBusy-save k b x.tables.sandboxes busy was) in
      now in
    record {
      running = λ k. elim (Bool-cases (id == k)) [
        | inl here ↦
            let at : id ≡ k = ==→eq id k here in
            let none_k : count k x.running ≡ 0 = ap (λ i. count i x.running) (sym at) ∙ zero in
            let now_k : IsBusy k d.sandboxes = rw wrote (
              subst (λ i. IsBusy i (Tables.save (λ r. r.id) b x.tables.sandboxes)) (e ∙ at)
                (IsBusy-save_self b x.tables.sandboxes busy)) in
            rw here (inr (ap suc none_k, now_k))
        | inr there ↦
            rw there (Alone-map k x.running x.tables.sandboxes d.sandboxes (kept k) (h.running k))
      ];
      pending = λ k p.
          let (none_k, was) = h.pending k p in
          elim (Bool-cases (id == k)) [
            | inl here ↦
                let there : IsBusy id x.tables.sandboxes =
                  subst (λ i. IsBusy i x.tables.sandboxes) (sym (==→eq id k here)) was in
                absurd (free-IsBusy id x.tables.sandboxes before found free there)
            | inr there ↦ rw there (none_k, kept k was)
          ];
    }

-- An execution's second transaction: its sandbox is released, or nothing is written.
pub end_one :
    (x : System) (d : Db) (id : ℕ)
    → 0 < count id x.running
    → ((k : ℕ) → (id == k) ≡ false → IsBusy k x.tables.sandboxes → IsBusy k d.sandboxes)
    → IsExclusive x
    → IsExclusive (record x { tables = d; running = remove_one id x.running })
end_one x d id some_id kept h = record {
  running = λ k. elim (Bool-cases (id == k)) [
    | inl here ↦ inl (
        let at : id ≡ k = ==→eq id k here in
        let few : count k x.running ≤ 1 =
          at_most_one k x.running x.tables.sandboxes (h.running k) in
        count-remove_one k id x.running ∙ rw here (omega arith))
    | inr there ↦
        let same : count k (remove_one id x.running) ≡ count k x.running =
          count-remove_one k id x.running ∙ rw there in
        elim (h.running k) [
          | inl zero ↦ inl (same ∙ zero)
          | inr (one, busy) ↦ inr (same ∙ one, kept k there busy)
        ]
  ];
  pending = λ k p.
      let (none_k, was) = h.pending k p in
      elim (Bool-cases (id == k)) [
        | inl here ↦ absurd (
            let at : id ≡ k = ==→eq id k here in
            let none_id : count id x.running ≡ 0 = ap (λ i. count i x.running) at ∙ none_k in
            omega (arith, none_id))
        | inr there ↦ (count-remove_one k id x.running ∙ rw there none_k, kept k there was)
      ];
}

pub missing-IsBusy :
    (id : ℕ) (rows : List Sandbox) → Tables.find (λ r. r.id) id rows ≡ none → ¬ IsBusy id rows
missing-IsBusy id rows missing busy =
    let bad : none ≡ some busy.sandbox = sym missing ∙ busy.found in cc

-- A new provisioning.
pub open_one :
    (x : System) (d : Db) (b : Sandbox)
    → Tables.find (λ r. r.id) b.id x.tables.sandboxes ≡ none
    → claimable b.sandbox_status ≡ false
    → d.sandboxes ≡ Tables.save (λ r. r.id) b x.tables.sandboxes
    → IsExclusive x
    → IsExclusive (record x { tables = d; pending = b.id ∷ x.pending })
unfolding count
open_one x d b new busy wrote h =
    let still =
      keep x d
        (λ k was.
          let now : IsBusy k d.sandboxes = rw wrote (IsBusy-save k b x.tables.sandboxes busy was) in
          now)
        h in
    record {
      running = still.running;
      pending = λ k p. elim (Bool-cases (b.id == k)) [
        | inl here ↦
            let at : b.id ≡ k = ==→eq b.id k here in
            (
              ap (λ i. count i x.running) (sym at) ∙ elim (h.running b.id) [
                | inl zero ↦ zero
                | inr (one, was) ↦ absurd (missing-IsBusy b.id x.tables.sandboxes new was)
              ],
              rw wrote (
                  subst (λ i. IsBusy i (Tables.save (λ r. r.id) b x.tables.sandboxes)) at
                    (IsBusy-save_self b x.tables.sandboxes busy)),
            )
        | inr there ↦ still.pending k (rw there at p)
      ];
    }

-- A provisioning's second transaction.
pub close_one :
    (x : System) (d : Db) (b : Sandbox)
    → 0 < count b.id x.pending
    → d.sandboxes ≡ Tables.save (λ r. r.id) b x.tables.sandboxes
    → IsExclusive x
    → IsExclusive (record x { tables = d; pending = remove_all b.id x.pending })
close_one x d b mine wrote h =
    let kept = λ (k : ℕ) (there : (b.id == k) ≡ false) (was : IsBusy k x.tables.sandboxes).
      let now : IsBusy k d.sandboxes =
        rw wrote (IsBusy-save_other k b x.tables.sandboxes there was) in
      now in
    record {
      running = λ k. elim (Bool-cases (b.id == k)) [
        | inl here ↦
            inl (ap (λ i. count i x.running) (sym (==→eq b.id k here)) ∙ (h.pending b.id mine).0)
        | inr there ↦
            Alone-map k x.running x.tables.sandboxes d.sandboxes (kept k there) (h.running k)
      ];
      pending = λ k p. elim (Bool-cases (b.id == k)) [
        | inl here ↦ absurd (
            let gone : count k (remove_all b.id x.pending) ≡ 0 =
              count-remove_all k b.id x.pending ∙ rw here in
            omega (arith, gone))
        | inr there ↦
            let same : count k (remove_all b.id x.pending) ≡ count k x.pending =
              count-remove_all k b.id x.pending ∙ rw there in
            let (none_k, was) = h.pending k (rw same at p) in (none_k, kept k there was)
      ];
    }

-- What a transaction reads is the tables.
pub read_tables :
    (x : System) (s : Session)
    → s.committed ≡ x.tables
    → IsExclusive x
    → IsExclusive (record x { tables = s.committed })
read_tables x s e h =
    keep x s.committed (λ k was. let now : IsBusy k s.committed.sandboxes = rw e was in now) h

pub start_claim :
    (x : System) (q : Request) (tool : ToolDefinition) (execution_id start : ℕ) (b : Sandbox)
    (s' : Session)
    → Claimed q tool execution_id start x.tables b s'
    → IsExclusive x
    → IsExclusive (record x { tables = s'.committed; running = q.sandbox_id ∷ x.running })
start_claim x q tool execution_id start b s' c h =
    let id_b : b.id ≡ q.sandbox_id =
      ap (λ a. a.id) c.is_claimed
      ∙ Tables.key-find (λ r. r.id) q.sandbox_id x.tables.sandboxes c.before c.found in
    let busy : claimable b.sandbox_status ≡ false =
      ap (λ a. claimable a.sandbox_status) c.is_claimed in
    start_one x s'.committed q.sandbox_id c.before b c.found c.was_free id_b busy c.sandboxes h

pub Settled-other :
    (q : Request) (d : AttemptData) (c : Db) (s' : Session) (k : ℕ)
    → Settled q d c s'
    → (q.sandbox_id == k) ≡ false
    → IsBusy k c.sandboxes
    → IsBusy k s'.committed.sandboxes
Settled-other q d c s' k settled there was = elim settled.sandboxes [
  | inl (missing, same) ↦ rw same was
  | inr (b, now, found, _, wrote) ↦
      let id_b = Tables.key-find (λ r. r.id) q.sandbox_id c.sandboxes b found in
      rw wrote (IsBusy-save_other k _ c.sandboxes (rw id_b there) was)
]
