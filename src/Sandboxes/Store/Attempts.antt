-- ===== src/Sandboxes/Store/Attempts.antt =====
-- The table of the attempts.
use keviq_core.Prelude.{
  ℕ, ◌==◌, ◌≡◌, refl, true, false, Option, none, some, List, [], ◌∷◌, ℤ, ℤ_eq, Bool-cases, eq→==,
  inl, inr,
}
use keviq_core.Prelude.Tables
use keviq_core.Sandboxes.Store.{
  Db, Attempt, AttemptData, insert_row, update_row, is_attempt, find_attempt, upsert, refused,
  is_storable,
}

pub ℤ_eq_self : (n : ℤ) → ℤ_eq n n ≡ true
ℤ_eq_self (ℤ.pos n) = eq→== n n refl
ℤ_eq_self (ℤ.negsuc n) = eq→== n n refl

-- The row that is written, whichever way.
abbrev pub written : AttemptData → Option Attempt → Attempt
written d none = insert_row d
written d (some r) = update_row d r

is_attempt-written :
    (d : AttemptData) (o : Option Attempt)
    → is_attempt d.sandbox_id d.attempt_index (written d o) ≡ true
is_attempt-written d none = rw (eq→== d.sandbox_id d.sandbox_id refl, ℤ_eq_self d.attempt_index)
is_attempt-written d (some r) = rw (eq→== d.sandbox_id d.sandbox_id refl, ℤ_eq_self d.attempt_index)

-- The attempt is found again, in the row that it has had, if it has had one.
pub find_attempt-upsert :
    (d : AttemptData) (rows : List Attempt)
    → find_attempt d.sandbox_id d.attempt_index (upsert d rows)
      ≡ some (written d (find_attempt d.sandbox_id d.attempt_index rows))
unfolding find_attempt upsert
find_attempt-upsert d [] = rw (is_attempt-written d none) refl
find_attempt-upsert d (r ∷ rows) = elim (Bool-cases (is_attempt d.sandbox_id d.attempt_index r)) [
  | inl here ↦ rw here (rw (is_attempt-written d (some r)) refl)
  | inr later ↦ rw later (rw later (find_attempt-upsert d rows))
]

-- A row that is overwritten keeps its identifier.
pub find-upsert_old :
    (d : AttemptData) (id : ℕ) (rows : List Attempt) (old : Attempt)
    → find_attempt d.sandbox_id d.attempt_index rows ≡ some old
    → Tables.find (λ r. r.id) id rows ≡ none
    → Tables.find (λ r. r.id) id (upsert d rows) ≡ none
unfolding find_attempt upsert Tables.find
find-upsert_old d id [] old h k = cc
find-upsert_old d id (r ∷ rows) old h k =
    elim (Bool-cases (is_attempt d.sandbox_id d.attempt_index r)) [
      | inl here ↦ rw here (elim (Bool-cases (r.id == id)) [
        | inl same ↦ let bad : some r ≡ none = rw same at k in cc
        | inr other ↦ rw other (rw other at k)
      ])
      | inr later ↦ rw later (elim (Bool-cases (r.id == id)) [
        | inl same ↦ let bad : some r ≡ none = rw same at k in cc
        | inr other ↦ rw other (find-upsert_old d id rows old (rw later at h) (rw other at k))
      ])
    ]

-- An attempt that is on record can be saved again, with values that fit.
pub refused_old :
    (d : AttemptData) (db : Db) (old : Attempt)
    → find_attempt d.sandbox_id d.attempt_index db.attempts ≡ some old
    → is_storable d ≡ true
    → refused d db ≡ false
refused_old d db old h fits = rw (fits, h)
