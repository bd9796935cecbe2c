-- ===== src/Artifacts/Lineage.antt =====
-- apps/artifact-service/src/domain/lineage.py: `detect_cycle`. An edge is a pair of the child's and
-- the parent's identifier, as the repository lists them.
pub mod Ends
pub mod Correct
pub mod Acyclic
pub mod Scoped
use keviq_core.Prelude.{
  ℕ, zero, suc, ◌+◌, Bool, true, false, not, List, [], ◌∷◌, ◌++◌, ◌==◌, if◌then◌else◌, length,
  where_test, member,
}

abbrev pub EdgePair : Type 0
EdgePair = ℕ × ℕ

-- `parents_of.get(current, set())`. Python does not say in which order it lists a set; here it is
-- some order without repetition.
unfoldable pub parents_of : List EdgePair → ℕ → List ℕ
parents_of [] current = []
parents_of ((child, parent) ∷ edges) current =
    let rest = parents_of edges current in
    if child == current then (if member parent rest then rest else parent ∷ rest) else rest

-- `for ancestor in …: if ancestor not in visited: queue.append(ancestor)`, what is appended
abbrev pub unvisited : List ℕ → List ℕ → List ℕ
unvisited visited = where_test (λ ancestor. not (member ancestor visited))

-- What the search comes to; `out_of_fuel` stands for a loop that is still running.
pub data Search : Type 0 where
  answered : Bool → Search
  out_of_fuel : Search

-- The `while` loop, by a bound on its rounds.
unfoldable pub bfs : (edges : List EdgePair) (child_id fuel : ℕ) → (visited queue : List ℕ) → Search
unfolding parents_of
bfs edges child_id fuel visited [] = answered false
bfs edges child_id zero visited (current ∷ queue) = out_of_fuel
bfs edges child_id (suc fuel) visited (current ∷ queue) = elim (current == child_id) [
  | true ↦ answered true
  | false ↦ elim (member current visited) [
    | true ↦ bfs edges child_id fuel visited queue
    | false ↦
        bfs edges child_id fuel (current ∷ visited)
          (queue ++ unvisited (current ∷ visited) (parents_of edges current))
  ]
]

-- The bound is one round more than there are edges.
unfoldable pub detect_cycle : (child_id parent_id : ℕ) → List EdgePair → Search
unfolding bfs
detect_cycle child_id parent_id existing_edges =
    if child_id == parent_id
    then answered true
    else bfs existing_edges child_id (suc (length existing_edges)) [] (parent_id ∷ [])
