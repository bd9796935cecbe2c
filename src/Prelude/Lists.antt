-- ===== src/Prelude/Lists.antt =====
-- Lists: predicates, tests and lengths over the native numbers.
use Prim.Native.Nat.{ℕ, zero, suc, ◌+◌}
use mathlib.Core.Path.{◌≡◌}
use mathlib.Core.Logic.{inl, inr}
use mathlib.Core.Bool.{Bool, true, false, ◌||◌}
use mathlib.Core.List.{List, [], ◌∷◌, ◌++◌}
use native.Mathlib.Omega.{arith}
use keviq_core.Prelude.Tests.{if◌then◌else◌, ◌==◌, Bool-cases}

module _ {ℓ} {A : Type ℓ} where
  abbrev pub length : List A → ℕ
  length [] = 0
  length (_ ∷ xs) = suc (length xs)

  -- `not xs`
  abbrev pub is_nil : List A → Bool
  is_nil [] = true
  is_nil (_ ∷ _) = false

  abbrev pub take : ℕ → List A → List A
  take zero xs = []
  take (suc n) [] = []
  take (suc n) (x ∷ xs) = x ∷ take n xs

  abbrev pub All {κ} : (A → Type κ) → List A → Type κ
  All P [] = Unit
  All P (x ∷ xs) = P x × All P xs

  -- `[x for x in xs if keep(x)]`
  abbrev pub where_test : (A → Bool) → List A → List A
  where_test keep [] = []
  where_test keep (x ∷ xs) = let rest = where_test keep xs in if keep x then x ∷ rest else rest

  -- All that a query by a test returns pass the test, and it returns nothing else.
  pub All-where_test :
      (keep : A → Bool) (xs : List A) → All (λ x. keep x ≡ true) (where_test keep xs)
  All-where_test keep [] = tt
  All-where_test keep (x ∷ xs) = elim (Bool-cases (keep x)) [
    | inl p ↦ rw p (p, All-where_test keep xs)
    | inr p ↦ rw p (All-where_test keep xs)
  ]

  pub All-implies {κ κ'} :
      {P : A → Type κ} {Q : A → Type κ'} (xs : List A) → ((x : A) → P x → Q x) → All P xs → All Q xs
  All-implies [] f h = tt
  All-implies (x ∷ xs) f h = (f x h.0, All-implies xs f h.1)

  pub All-kept {κ} :
      (P : A → Type κ) (keep : A → Bool) (xs : List A) → All P xs → All P (where_test keep xs)
  All-kept P keep [] h = tt
  All-kept P keep (x ∷ xs) h = elim (Bool-cases (keep x)) [
    | inl p ↦ rw p (h.0, All-kept P keep xs h.1)
    | inr p ↦ rw p (All-kept P keep xs h.1)
  ]

  pub All-append {κ} : (P : A → Type κ) (xs ys : List A) → All P xs → All P ys → All P (xs ++ ys)
  All-append P [] ys hx hy = hy
  All-append P (x ∷ xs) ys hx hy = (hx.0, All-append P xs ys hx.1 hy)

  pub length-append : (xs ys : List A) → length (xs ++ ys) ≡ length xs + length ys
  length-append [] ys = omega arith
  length-append (x ∷ xs) ys = omega (arith, length-append xs ys)

  pub length-snoc : (xs : List A) (x : A) → length (xs ++ x ∷ []) ≡ length xs + 1
  length-snoc xs x = omega (arith, length-append xs (x ∷ []))

-- `a in xs` at numbers
abbrev pub member : ℕ → List ℕ → Bool
member a [] = false
member a (x ∷ xs) = (a == x) || member a xs
