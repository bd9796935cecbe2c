-- ===== src/Sandboxes/Exclusion/Counts.antt =====
-- How often an identifier stands in a list.
use keviq_core.Prelude.{ℕ, ◌-◌, ◌==◌, ◌≡◌, List, [], ◌∷◌, if◌then◌else◌, arith}
use keviq_core.Sandboxes.Exclusion.{count, remove_one, remove_all}

pub count-remove_one :
    (id k : ℕ) (xs : List ℕ)
    → count id (remove_one k xs) ≡ (if k == id then count id xs - 1 else count id xs)
unfolding count remove_one
count-remove_one id k [] = ground arith
count-remove_one id k (x ∷ xs) = ground (arith, count-remove_one id k xs)

pub count-remove_all :
    (id k : ℕ) (xs : List ℕ) → count id (remove_all k xs) ≡ (if k == id then 0 else count id xs)
unfolding count remove_all
count-remove_all id k [] = ground arith
count-remove_all id k (x ∷ xs) = ground (arith, count-remove_all id k xs)
