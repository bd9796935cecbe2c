-- ===== src/Artifacts/Lineage/Ends.antt =====
-- The loop of `detect_cycle` ends: each round leaves less to do.
use keviq_core.Prelude.{
  ℕ, zero, suc, ◌+◌, ◌≤◌, ◌≡◌, refl, inl, inr, Bool, true, false, not, List, [], ◌∷◌, ◌++◌, ◌==◌,
  if◌then◌else◌, length, length-append, where_test, member, arith, Bool-cases,
}
use keviq_core.Artifacts.Lineage.{EdgePair, parents_of, unvisited, answered, bfs, detect_cycle}

length-where_test :
    {A : Type 0} (keep : A → Bool) (xs : List A) → length (where_test keep xs) ≤ length xs
length-where_test keep [] = omega arith
length-where_test keep (x ∷ xs) = ground (arith, length-where_test keep xs)

-- The edges whose child has not been expanded.
open_edges : List ℕ → List EdgePair → ℕ
open_edges visited [] = 0
open_edges visited ((child, parent) ∷ edges) =
    let rest = open_edges visited edges in if member child visited then rest else suc rest

open_edges-le : (visited : List ℕ) (edges : List EdgePair) → open_edges visited edges ≤ length edges
unfolding open_edges
open_edges-le visited [] = omega arith
open_edges-le visited ((child, parent) ∷ edges) = ground (arith, open_edges-le visited edges)

-- What an expansion queues is paid for by the edges that it closes.
open_edges-expand :
    (current : ℕ) (visited : List ℕ) (edges : List EdgePair)
    → member current visited ≡ false
    → open_edges (current ∷ visited) edges + length (parents_of edges current)
      ≤ open_edges visited edges
unfolding open_edges parents_of
open_edges-expand current visited [] h = omega arith
open_edges-expand current visited ((child, parent) ∷ edges) h =
    ground (arith, open_edges-expand current visited edges h)

bfs-answers :
    (edges : List EdgePair) (child fuel : ℕ) (visited queue : List ℕ)
    → length queue + open_edges visited edges ≤ fuel
    → (b : Bool) × (bfs edges child fuel visited queue ≡ answered b)
unfolding bfs
bfs-answers edges child fuel visited [] h = (false, refl)
bfs-answers edges child zero visited (current ∷ queue) h = absurd (omega arith)
bfs-answers edges child (suc fuel) visited (current ∷ queue) h =
    elim (Bool-cases (current == child)) [
      | inl e ↦ (true, rw (e, bfs) refl)
      | inr e ↦ elim (Bool-cases (member current visited)) [
        | inl seen ↦
            let (b, p) = bfs-answers edges child fuel visited queue (omega arith) in
            (b, rw (e, seen, bfs) p)
        | inr new ↦
            let fresh = unvisited (current ∷ visited) (parents_of edges current) in
            let (b, p) = bfs-answers edges child fuel (current ∷ visited) (queue ++ fresh) (
              omega (
                arith,
                length-append queue fresh,
                open_edges-expand current visited edges new,
                length-where_test (λ a. not (member a (current ∷ visited)))
                    (parents_of edges current),
              )) in
            (b, rw (e, new, bfs) p)
      ]
    ]

-- Termination: the search comes to an answer within one round more than there are edges.
pub detect_cycle-answers :
    (child parent : ℕ) (edges : List EdgePair)
    → (b : Bool) × (detect_cycle child parent edges ≡ answered b)
unfolding detect_cycle
detect_cycle-answers child parent edges = elim (Bool-cases (child == parent)) [
  | inl e ↦ (true, rw e refl)
  | inr e ↦
      let (b, p) =
        bfs-answers edges child (suc (length edges)) [] (parent ∷ [])
          (omega (arith, open_edges-le [] edges)) in
      (b, rw e p)
]
