-- ===== src/Artifacts/Lineage/Acyclic.antt =====
-- Adding an edge to a graph without cycles.
use keviq_core.Prelude.{ℕ, ◌≡◌, ◌⊎◌, inl, inr, true, List, [], ◌∷◌, ◌++◌, arith}
use mathlib.Core.Path.{subst}
use keviq_core.Artifacts.Lineage.{EdgePair}
use keviq_core.Artifacts.Lineage.Correct.{has_edge, Ancestor, here, up}

-- No artifact is an ancestor of one of its parents.
unfoldable pub IsAcyclic : List EdgePair → Type 0
IsAcyclic edges = (a b : ℕ) → has_edge edges a b ≡ true → ¬ Ancestor edges b a

pub Ancestor-trans :
    (edges : List EdgePair) {x y z : ℕ}
    → Ancestor edges x y
    → Ancestor edges y z
    → Ancestor edges x z
Ancestor-trans edges p here = p
Ancestor-trans edges p (up b q e) = up b (Ancestor-trans edges p q) e

pub has_edge-snoc :
    (edges : List EdgePair) (c p a b : ℕ)
    → has_edge (edges ++ (c, p) ∷ []) a b ≡ true
    → (has_edge edges a b ≡ true) ⊎ ((a ≡ c) × (b ≡ p))
unfolding has_edge
has_edge-snoc [] c p a b h = ground (arith, h)
has_edge-snoc ((x, y) ∷ edges) c p a b h = ground (arith, h, has_edge-snoc edges c p a b)

-- A path either does without the new edge or goes through it.
abbrev Through : List EdgePair → (c p x y : ℕ) → Type 0
Through edges c p x y = Ancestor edges x y ⊎ (Ancestor edges x c × Ancestor edges p y)

further :
    (edges : List EdgePair) (c p x a b : ℕ)
    → Through edges c p x a
    → (has_edge edges a b ≡ true) ⊎ ((a ≡ c) × (b ≡ p))
    → Through edges c p x b
further edges c p x a b (inl r) (inl old) = inl (up b r old)
further edges c p x a b (inr (r, t)) (inl old) = inr (r, up b t old)
further edges c p x a b (inl r) (inr (is_c, is_p)) =
    inr (subst (Ancestor edges x) is_c r, rw is_p here)
further edges c p x a b (inr (r, t)) (inr (is_c, is_p)) = inr (r, rw is_p here)

pub Ancestor-snoc :
    (edges : List EdgePair) (c p : ℕ) {x y : ℕ}
    → Ancestor (edges ++ (c, p) ∷ []) x y
    → Through edges c p x y
Ancestor-snoc edges c p here = inl here
Ancestor-snoc edges c p {x} (up {a} b q e) =
    further edges c p x a b (Ancestor-snoc edges c p q) (has_edge-snoc edges c p a b e)

closes :
    (edges : List EdgePair) (c p a b : ℕ)
    → IsAcyclic edges
    → ¬ Ancestor edges p c
    → (has_edge edges a b ≡ true) ⊎ ((a ≡ c) × (b ≡ p))
    → Through edges c p b a
    → ⊥
unfolding IsAcyclic
closes edges c p a b acyclic apart (inl old) (inl r) = acyclic a b old r
closes edges c p a b acyclic apart (inl old) (inr (r, t)) =
    apart (Ancestor-trans edges (up b t old) r)
closes edges c p a b acyclic apart (inr (is_c, is_p)) (inl r) =
    apart (subst (Ancestor edges p) is_c (subst (λ x. Ancestor edges x a) is_p r))
closes edges c p a b acyclic apart (inr (is_c, is_p)) (inr (r, t)) =
    apart (subst (λ x. Ancestor edges x c) is_p r)

-- Where the parent does not descend from the child, the edge closes no cycle.
pub IsAcyclic-snoc :
    (edges : List EdgePair) (c p : ℕ)
    → IsAcyclic edges
    → ¬ Ancestor edges p c
    → IsAcyclic (edges ++ (c, p) ∷ [])
unfolding IsAcyclic
IsAcyclic-snoc edges c p acyclic apart a b e q =
    closes edges c p a b acyclic apart (has_edge-snoc edges c p a b e) (Ancestor-snoc edges c p q)
