-- ===== src/Gateway/RateLimit/Window.antt =====
-- What stays of a key's timestamps, and what a later look at them sees.
use keviq_core.Prelude.{
  ℕ, ◌+◌, ◌≡◌, ◌≤◌, refl, inl, inr, Bool, true, false, List, [], ◌∷◌, ◌++◌, length, All, All-kept,
  All-implies, All-append, where_test, arith, ltb→lt, Bool-cases,
}
use keviq_core.Gateway.RateLimit.{is_live, newest, is_stale}

-- No timestamp stands before an earlier one.
unfoldable pub IsSorted : List ℕ → Type 0
IsSorted [] = Unit
IsSorted (t ∷ ts) = All (λ u. t ≤ u) ts × IsSorted ts

pub IsSorted-where_test :
    (keep : ℕ → Bool) (ts : List ℕ) → IsSorted ts → IsSorted (where_test keep ts)
unfolding IsSorted
IsSorted-where_test keep [] h = tt
IsSorted-where_test keep (t ∷ ts) h = elim (Bool-cases (keep t)) [
  | inl kept ↦ rw kept (All-kept (λ u. t ≤ u) keep ts h.0, IsSorted-where_test keep ts h.1)
  | inr left ↦ rw left (IsSorted-where_test keep ts h.1)
]

pub IsSorted-snoc :
    (ts : List ℕ) (now : ℕ) → IsSorted ts → All (λ u. u ≤ now) ts → IsSorted (ts ++ now ∷ [])
unfolding IsSorted
IsSorted-snoc [] now h k = (tt, tt)
IsSorted-snoc (t ∷ ts) now h k =
    (All-append (λ u. t ≤ u) ts (now ∷ []) h.0 (k.0, tt), IsSorted-snoc ts now h.1 k.1)

-- The last timestamp is the newest.
IsSorted-newest : (t : ℕ) (ts : List ℕ) → IsSorted (t ∷ ts) → All (λ u. u ≤ newest t ts) (t ∷ ts)
unfolding IsSorted
IsSorted-newest t [] h = (omega arith, tt)
IsSorted-newest t (u ∷ ts) h =
    let rest = IsSorted-newest u ts h.1 in (omega (arith, h.0.0, rest.0), rest)

module _ (span : ℕ) where
  -- What is live at a time.
  abbrev pub live : (now : ℕ) → List ℕ → List ℕ
  live now = where_test (is_live span now)

  pub live-append : (now : ℕ) (xs ys : List ℕ) → live now (xs ++ ys) ≡ live now xs ++ live now ys
  live-append now [] ys = refl
  live-append now (x ∷ xs) ys = elim (Bool-cases (is_live span now x)) [
    | inl yes_live ↦ rw (yes_live, live-append now xs ys) refl
    | inr gone ↦ rw (gone, live-append now xs ys) refl
  ]

  -- What is live later was live before.
  pub live-live :
      (now later : ℕ) (ts : List ℕ) → now ≤ later → live later (live now ts) ≡ live later ts
  live-live now later [] h = refl
  live-live now later (t ∷ ts) h = elim (Bool-cases (is_live span now t)) [
    | inl yes_live ↦ rw (yes_live, live-live now later ts h) refl
    | inr gone ↦
        let gone_later : is_live span later t ≡ false = ground (arith, gone, h) in
        rw (gone, live-live now later ts h, gone_later) refl
  ]

  pub length-live : (now : ℕ) (ts : List ℕ) → length (live now ts) ≤ length ts
  length-live now [] = omega arith
  length-live now (t ∷ ts) = ground (arith, length-live now ts)

  live-none : (now : ℕ) (ts : List ℕ) → All (λ t. t + span ≤ now) ts → live now ts ≡ []
  live-none now [] h = refl
  live-none now (t ∷ ts) h =
      let gone : is_live span now t ≡ false = ground (arith, h.0) in
      rw (gone, live-none now ts h.1) refl

  -- What is stale is not live, now or later, where a window is no longer than the age.
  pub live-is_stale :
      (max_age now later : ℕ) (ts : List ℕ)
      → span ≤ max_age
      → now ≤ later
      → IsSorted ts
      → is_stale max_age now ts ≡ true
      → live later ts ≡ []
  live-is_stale max_age now later [] w h s k = refl
  live-is_stale max_age now later (t ∷ ts) w h s k =
      let old = ltb→lt (newest t ts + max_age) now k in
      live-none later (t ∷ ts) (
        All-implies (t ∷ ts) (λ u (below : u ≤ newest t ts). omega (arith, below, old, w, h))
          (IsSorted-newest t ts s))
