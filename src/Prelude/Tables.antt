-- ===== src/Prelude/Tables.antt =====
-- A table with a numeric primary key, as a list of rows: what a session's `get` and the upsert of
-- the repositories do.
use Prim.Native.Nat.{ℕ}
use mathlib.Core.Path.{◌≡◌, refl, subst}
use mathlib.Core.Logic.{inl, inr}
use mathlib.Core.Bool.{Bool, true}
use mathlib.Core.Option.{Option, none, some}
use mathlib.Core.List.{List, [], ◌∷◌, map}
use native.Mathlib.Omega.{arith}
use keviq_core.Prelude.Tests.{if◌then◌else◌, ◌==◌, leb, Bool-cases, eq→==}
use keviq_core.Prelude.Lists.{where_test, member, All}

module _ {A : Type 0} (key : A → ℕ) where
  -- The row with that key.
  unfoldable pub find : ℕ → List A → Option A
  find k [] = none
  find k (a ∷ rows) = if key a == k then some a else find k rows

  -- Insert the row, or overwrite the one that has its key.
  unfoldable pub save : A → List A → List A
  save a [] = a ∷ []
  save a (b ∷ bs) = if key b == key a then a ∷ bs else b ∷ save a bs

  pub find-save :
      (k : ℕ) (a : A) (rows : List A)
      → find k (save a rows) ≡ (if key a == k then some a else find k rows)
  unfolding find save
  find-save k a [] = refl
  find-save k a (b ∷ bs) = ground (arith, find-save k a bs)

  -- A row that was saved is found under its key.
  pub find-save_self : (k : ℕ) (a : A) (rows : List A) → key a ≡ k → find k (save a rows) ≡ some a
  find-save_self k a rows e = rw (find-save, eq→== (key a) k e)

  pub key-find : (k : ℕ) (rows : List A) (a : A) → find k rows ≡ some a → key a ≡ k
  unfolding find
  key-find k [] a h = ground arith
  key-find k (b ∷ bs) a h = ground (arith, key-find k bs a)

  -- What holds of every row.
  pub All-save {κ} :
      (P : A → Type κ) (a : A) (rows : List A) → P a → All P rows → All P (save a rows)
  unfolding save
  All-save P a [] p h = (p, tt)
  All-save P a (b ∷ bs) p h = elim (Bool-cases (key b == key a)) [
    | inl same ↦ rw same (p, h.1)
    | inr other ↦ rw other (h.0, All-save P a bs p h.1)
  ]

  pub All-find {κ} :
      (P : A → Type κ) (k : ℕ) (a : A) (rows : List A) → All P rows → find k rows ≡ some a → P a
  unfolding find
  All-find P k a [] h e = cc
  All-find P k a (b ∷ bs) h e = elim (Bool-cases (key b == k)) [
    | inl same ↦ let it : b ≡ a = ground (arith, same, e) in subst P it h.0
    | inr other ↦ All-find P k a bs h.1 (rw (other, find) at e)
  ]

  -- A row that is found and passes the test is among those that a query by the test returns.
  pub member-where_test :
      (test : A → Bool) (k : ℕ) (rows : List A) (a : A)
      → find k rows ≡ some a
      → test a ≡ true
      → member k (map key (where_test test rows)) ≡ true
  unfolding find
  member-where_test test k [] a h t = ground arith
  member-where_test test k (b ∷ bs) a h t = elim (Bool-cases (test b)) [
    | inl p ↦ rw p (ground (arith, member-where_test test k bs a))
    | inr p ↦ rw p (ground (arith, member-where_test test k bs a))
  ]

  -- `ORDER BY key ASC`, stable.
  insert_by : A → List A → List A
  insert_by a [] = a ∷ []
  insert_by a (b ∷ bs) = if leb (key a) (key b) then a ∷ b ∷ bs else b ∷ insert_by a bs

  unfoldable pub order_by : List A → List A
  unfolding insert_by
  order_by [] = []
  order_by (a ∷ rows) = insert_by a (order_by rows)
