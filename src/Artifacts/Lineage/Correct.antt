-- ===== src/Artifacts/Lineage/Correct.antt =====
-- `detect_cycle` decides whether the child is an ancestor of the parent.
use keviq_core.Prelude.{
  ℕ, zero, suc, ◌≡◌, ◌⊎◌, refl, ◌∙◌, inl, inr, Bool, true, false, not, ◌&&◌, ◌||◌, List, [], ◌∷◌,
  ◌++◌, ◌==◌, length, member, arith, Bool-cases, ==→eq,
}
use keviq_core.Artifacts.Lineage.{EdgePair, parents_of, unvisited, answered, bfs, detect_cycle}
use keviq_core.Artifacts.Lineage.Ends.{detect_cycle-answers}

-- The edge is among the edges.
unfoldable pub has_edge : List EdgePair → ℕ → ℕ → Bool
has_edge [] child parent = false
has_edge ((c, p) ∷ edges) child parent =
    (c == child) && (p == parent) || has_edge edges child parent

-- The second is the first, or an ancestor of it: parents followed upwards.
pub data Ancestor (edges : List EdgePair) (of : ℕ) : ℕ → Type 0 where
  here : Ancestor edges of of
  up : {a : ℕ} (b : ℕ) → Ancestor edges of a → has_edge edges a b ≡ true → Ancestor edges of b

member-parents_of :
    (edges : List EdgePair) (a b : ℕ) → member b (parents_of edges a) ≡ has_edge edges a b
unfolding parents_of has_edge
member-parents_of [] a b = refl
member-parents_of ((c, p) ∷ edges) a b = ground (arith, member-parents_of edges a b)

member-append : (a : ℕ) (xs ys : List ℕ) → member a (xs ++ ys) ≡ (member a xs || member a ys)
member-append a [] ys = refl
member-append a (x ∷ xs) ys = ground (arith, member-append a xs ys)

member-unvisited :
    (a : ℕ) (visited xs : List ℕ)
    → member a (unvisited visited xs) ≡ (member a xs && not (member a visited))
member-unvisited a visited [] = refl
member-unvisited a visited (x ∷ xs) = elim (Bool-cases (member x visited)) [
  | inl p ↦ ground (arith, p, member-unvisited a visited xs)
  | inr p ↦ ground (arith, p, member-unvisited a visited xs)
]

module _ (edges : List EdgePair) (child start : ℕ) where
  -- Nothing that is reached is missed: what has been expanded is closed under the parents, up to
  -- what is still queued.
  record Covers (visited queue : List ℕ) : Type 0 where
    source : (member start visited ≡ true) ⊎ (member start queue ≡ true)
    apart : member child visited ≡ false
    closed :
        (a b : ℕ)
        → member a visited ≡ true
        → has_edge edges a b ≡ true
        → (member b visited ≡ true) ⊎ (member b queue ≡ true)

  -- Everything that is queued is reached.
  IsReached : List ℕ → Type 0
  IsReached queue = (a : ℕ) → member a queue ≡ true → Ancestor edges start a

  Covers-skip :
      (current : ℕ) (visited queue : List ℕ)
      → member current visited ≡ true
      → Covers visited (current ∷ queue)
      → Covers visited queue
  Covers-skip current visited queue seen c = record {
    source = ground (arith, seen, c.source);
    apart = c.apart;
    closed = λ a b m e. ground (arith, seen, c.closed a b m e);
  }

  Covers-expand :
      (current : ℕ) (visited queue : List ℕ)
      → (current == child) ≡ false
      → Covers visited (current ∷ queue)
      → Covers
          (current ∷ visited)
          (queue ++ unvisited (current ∷ visited) (parents_of edges current))
  Covers-expand current visited queue other c =
      let fresh = unvisited (current ∷ visited) (parents_of edges current) in
      let queued = λ (b : ℕ). member-append b queue fresh in
      let is_fresh = λ (b : ℕ). member-unvisited b (current ∷ visited) (parents_of edges current) in
      let of_edge = λ (b : ℕ). member-parents_of edges current b in
      record {
        source = ground (arith, queued start, c.source);
        apart = ground (arith, other, c.apart);
        closed = λ a b m e. elim (Bool-cases (a == current)) [
          | inl it ↦ ground (arith, queued b, is_fresh b, of_edge b, ==→eq a current it, e)
          | inr old ↦ ground (arith, queued b, old, m, c.closed a b)
        ];
      }

  IsReached-expand :
      (current : ℕ) (visited queue : List ℕ)
      → IsReached (current ∷ queue)
      → IsReached (queue ++ unvisited (current ∷ visited) (parents_of edges current))
  unfolding IsReached
  IsReached-expand current visited queue r a m =
      let fresh = unvisited (current ∷ visited) (parents_of edges current) in
      elim (Bool-cases (member a queue)) [
        | inl old ↦ r a (ground (arith, old))
        | inr new ↦ up a (r current (ground arith)) (
            ground (
              arith,
              new,
              m,
              member-append a queue fresh,
              member-unvisited a (current ∷ visited) (parents_of edges current),
              member-parents_of edges current a,
            ))
      ]

  bfs-true :
      (fuel : ℕ) (visited queue : List ℕ)
      → IsReached queue
      → bfs edges child fuel visited queue ≡ answered true
      → Ancestor edges start child
  unfolding bfs IsReached
  bfs-true fuel visited [] r h = cc
  bfs-true zero visited (current ∷ queue) r h = cc
  bfs-true (suc fuel) visited (current ∷ queue) r h = elim (Bool-cases (current == child)) [
    | inl it ↦ r child (ground (arith, it))
    | inr other ↦ elim (Bool-cases (member current visited)) [
      | inl seen ↦
          bfs-true fuel visited queue (λ a m. r a (ground (arith, m))) (rw (other, seen, bfs) at h)
      | inr new ↦
          bfs-true fuel (current ∷ visited)
            (queue ++ unvisited (current ∷ visited) (parents_of edges current))
            (IsReached-expand current visited queue r) (rw (other, new, bfs) at h)
    ]
  ]

  bfs-false :
      (fuel : ℕ) (visited queue : List ℕ)
      → Covers visited queue
      → bfs edges child fuel visited queue ≡ answered false
      → (all : List ℕ) × Covers all []
  unfolding bfs
  bfs-false fuel visited [] c h = (visited, c)
  bfs-false zero visited (current ∷ queue) c h = cc
  bfs-false (suc fuel) visited (current ∷ queue) c h = elim (Bool-cases (current == child)) [
    | inl it ↦ ground (arith, it, h)
    | inr other ↦ elim (Bool-cases (member current visited)) [
      | inl seen ↦
          bfs-false fuel visited queue (Covers-skip current visited queue seen c)
            (rw (other, seen, bfs) at h)
      | inr new ↦
          bfs-false fuel (current ∷ visited)
            (queue ++ unvisited (current ∷ visited) (parents_of edges current))
            (Covers-expand current visited queue other c) (rw (other, new, bfs) at h)
    ]
  ]

  -- Once nothing is queued, every ancestor has been expanded.
  Covers-all :
      (all : List ℕ) → Covers all [] → {a : ℕ} → Ancestor edges start a → member a all ≡ true
  Covers-all all c here = ground (arith, c.source)
  Covers-all all c (up {a} b p e) = ground (arith, c.closed a b (Covers-all all c p) e)

Covers-start : (edges : List EdgePair) (child start : ℕ) → Covers edges child start [] (start ∷ [])
Covers-start edges child start = record {
  source = inr (ground arith);
  apart = refl;
  closed = λ a b m e. cc;
}

IsReached-start :
    (edges : List EdgePair) (child start : ℕ) → IsReached edges child start (start ∷ [])
unfolding IsReached
IsReached-start edges child start a m = elim (Bool-cases (a == start)) [
  | inl it ↦ rw (==→eq a start it) here
  | inr other ↦ ground (arith, other, m)
]

module _ (child parent : ℕ) (edges : List EdgePair) (other : (child == parent) ≡ false) where
  detect_cycle-yes : detect_cycle child parent edges ≡ answered true → Ancestor edges parent child
  unfolding detect_cycle
  detect_cycle-yes h =
      bfs-true edges child parent (suc (length edges)) [] (parent ∷ [])
        (IsReached-start edges child parent) (rw (other, detect_cycle) at h)

  detect_cycle-no : detect_cycle child parent edges ≡ answered false → ¬ Ancestor edges parent child
  unfolding detect_cycle
  detect_cycle-no h ancestor =
      let (all, cover) =
        bfs-false edges child parent (suc (length edges)) [] (parent ∷ [])
          (Covers-start edges child parent) (rw (other, detect_cycle) at h) in
      ground (arith, Covers-all edges child parent all cover ancestor, cover.apart)

-- The search answers, and it answers yes exactly when the child is the parent or an ancestor of it,
-- so that an edge from the child to the parent would close a cycle.
pub detect_cycle-decides :
    (child parent : ℕ) (edges : List EdgePair)
    → ((detect_cycle child parent edges ≡ answered true) × Ancestor edges parent child)
      ⊎ ((detect_cycle child parent edges ≡ answered false) × (¬ Ancestor edges parent child))
unfolding detect_cycle
detect_cycle-decides child parent edges =
    let (b, e) = detect_cycle-answers child parent edges in
    elim (Bool-cases (child == parent)) [
      | inl same ↦ inl (rw (same, detect_cycle) refl, rw (==→eq child parent same) here)
      | inr other ↦ elim (Bool-cases b) [
        | inl it ↦ inl (e ∙ rw it refl, detect_cycle-yes child parent edges other (e ∙ rw it refl))
        | inr it ↦ inr (e ∙ rw it refl, detect_cycle-no child parent edges other (e ∙ rw it refl))
      ]
    ]
