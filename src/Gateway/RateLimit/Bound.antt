-- ===== src/Gateway/RateLimit/Bound.antt =====
-- How many calls of one key the counter lets through in one window.
use keviq_core.Prelude.{
  ℕ, ◌+◌, ◌*◌, ◌≡◌, ◌≤◌, ◌⊎◌, ◌≢◌, refl, sym, ap, ◌∙◌, inl, inr, Bool, true, false, String, List,
  [], ◌∷◌, ◌++◌, length, length-snoc, All, All-kept, All-implies, All-append, arith, ltb, leb,
  str_eq, eq_iff, Bool-cases, Option-cases, if◌then◌else◌,
}
use mathlib.Core.Path.{subst}
use mathlib.Core.List.{append-nil}
use keviq_core.Gateway.RateLimit.{
  Tier, window, second, Counter, new, timestamps, is_stale, is_live, prune_stale, maybe_prune,
  admit, is_allowed,
}
use keviq_core.Gateway.RateLimit.Window.{
  IsSorted, IsSorted-where_test, IsSorted-snoc, live, live-append, live-live, length-live,
  live-is_stale,
}

-- The timestamps of a key that stand for all the calls let through up to a time.
record Holds (tier : Tier) (ts let_through : List ℕ) (time : ℕ) : Type 0 where
  sorted : IsSorted ts
  past : All (λ t. t ≤ time) ts
  tracks :
      (later : ℕ)
      → time ≤ later
      → live (window tier) later let_through ≡ live (window tier) later ts
  small : length ts ≤ tier.max_requests

module _ (tier : Tier) (let_through : List ℕ) (time now : ℕ) (h : time ≤ now) where
  Holds-wait : (ts : List ℕ) → Holds tier ts let_through time → Holds tier ts let_through now
  Holds-wait ts k = record {
    sorted = k.sorted;
    past = All-implies ts (λ u (p : u ≤ time). omega (arith, p, h)) k.past;
    tracks = λ later l. k.tracks later (omega (arith, l, h));
    small = k.small;
  }

  Holds-drop :
      (ts : List ℕ)
      → window tier ≤ 120 * second
      → is_stale (120 * second) now ts ≡ true
      → Holds tier ts let_through time
      → Holds tier [] let_through now
  unfolding IsSorted
  Holds-drop ts w stale k = record {
    sorted = tt;
    past = tt;
    tracks = λ later l.
        k.tracks later (omega (arith, l, h))
        ∙ live-is_stale (window tier) (120 * second) now later ts w l k.sorted stale;
    small = omega arith;
  }

  -- A call that is refused only forgets what has expired.
  Holds-refuse :
      (ts : List ℕ)
      → Holds tier ts let_through time
      → Holds tier (live (window tier) now ts) let_through now
  Holds-refuse ts k = record {
    sorted = IsSorted-where_test (is_live (window tier) now) ts k.sorted;
    past =
        All-kept (λ u. u ≤ now) (is_live (window tier) now) ts
          (All-implies ts (λ u (p : u ≤ time). omega (arith, p, h)) k.past);
    tracks = λ later l.
        k.tracks later (omega (arith, l, h)) ∙ sym (live-live (window tier) now later ts l);
    small = omega (arith, length-live (window tier) now ts, k.small);
  }

  -- A call that is let through is written down.
  Holds-allow :
      (ts : List ℕ)
      → Holds tier ts let_through time
      → leb tier.max_requests (length (live (window tier) now ts)) ≡ false
      → Holds tier (live (window tier) now ts ++ now ∷ []) (let_through ++ now ∷ []) now
  Holds-allow ts k room =
      let old = Holds-refuse ts k in
      record {
        sorted = IsSorted-snoc (live (window tier) now ts) now old.sorted old.past;
        past =
            All-append (λ u. u ≤ now) (live (window tier) now ts) (now ∷ []) old.past
              (omega arith, tt);
        tracks = λ later l.
            live-append (window tier) later let_through (now ∷ [])
            ∙ ap (λ xs. xs ++ live (window tier) later (now ∷ [])) (old.tracks later l)
            ∙ sym (live-append (window tier) later (live (window tier) now ts) (now ∷ []));
        small = ground (arith, room, length-snoc (live (window tier) now ts) now);
      }

timestamps-prune_stale :
    (key : String) (max_age now : ℕ) (c : Counter)
    → (timestamps (prune_stale max_age now c) key ≡ timestamps c key)
      ⊎ ((timestamps (prune_stale max_age now c) key ≡ [])
          × (is_stale max_age now (timestamps c key) ≡ true))
unfolding prune_stale
timestamps-prune_stale key max_age now c = elim (Option-cases (c.windows key)) [
  | inl missing ↦ inl (rw missing refl)
  | inr (ts, found) ↦ elim (Bool-cases (is_stale max_age now ts)) [
    | inl stale ↦ inr (rw (found, stale) (refl, refl))
    | inr recent ↦ inl (rw (found, recent) refl)
  ]
]

-- The prune keeps the timestamps of a key, or drops them as stale.
timestamps-maybe_prune :
    (key : String) (now : ℕ) (c : Counter)
    → (timestamps (maybe_prune now c) key ≡ timestamps c key)
      ⊎ ((timestamps (maybe_prune now c) key ≡ [])
          × (is_stale (120 * second) now (timestamps c key) ≡ true))
unfolding maybe_prune prune_stale
timestamps-maybe_prune key now c = elim (Bool-cases (ltb (c.call_count + 1) 1000)) [
  | inl few ↦ inl (rw (few, maybe_prune) refl)
  | inr many ↦ elim (Bool-cases (ltb now (c.last_prune + 60 * second))) [
    | inl soon ↦ inl (rw (many, soon, maybe_prune) refl)
    | inr due ↦
        rw (many, due, maybe_prune)
          (timestamps-prune_stale key (120 * second) now
            (record c { call_count = 0; last_prune = now }))
  ]
]

-- The times at which a key was let through.
abbrev pub times_of : String → List (String × ℕ) → List ℕ
times_of key [] = []
times_of key ((k, t) ∷ log) = let rest = times_of key log in if str_eq k key then t ∷ rest else rest

-- A call that was let through goes into the log.
abbrev pub noted : Bool → String → ℕ → List (String × ℕ) → List (String × ℕ)
noted true key now log = log ++ (key, now) ∷ []
noted false key now log = log

-- Calls one after another, in the order of their times, on a counter that was new; each key has its
-- tier, and the log has the calls that were let through.
pub data Trace (tier_of : String → Tier) : Counter → List (String × ℕ) → ℕ → Type 0 where
  begin : (now : ℕ) → Trace tier_of (new now) [] now
  next :
      {c : Counter} {log : List (String × ℕ)} {time : ℕ} (key : String) (now : ℕ)
      → Trace tier_of c log time
      → time ≤ now
      → Trace tier_of
          (is_allowed key (tier_of key) now c).1
          (noted (is_allowed key (tier_of key) now c).0.allowed key now log)
          now

str_eq_refl : (s : String) → str_eq s s ≡ true
str_eq_refl s = (eq_iff s s).1 refl

str_eq-other : (s t : String) → s ≢ t → str_eq s t ≡ false
str_eq-other s t h = elim (Bool-cases (str_eq s t)) [
  | inl same ↦ elim (h ((eq_iff s t).0 same)) [ ]
  | inr other ↦ other
]

times_of-append :
    (key : String) (xs ys : List (String × ℕ))
    → times_of key (xs ++ ys) ≡ times_of key xs ++ times_of key ys
times_of-append key [] ys = refl
times_of-append key ((k, t) ∷ xs) ys = elim (Bool-cases (str_eq k key)) [
  | inl same ↦ rw (same, times_of-append key xs ys) refl
  | inr other ↦ rw (other, times_of-append key xs ys) refl
]

module _ (tier_of : String → Tier) (key : String) (w : window (tier_of key) ≤ 120 * second) where
  abbrev State : Counter → List (String × ℕ) → ℕ → Type 0
  State c log time = Holds (tier_of key) (timestamps c key) (times_of key log) time

  State-maybe_prune :
      (c : Counter) (log : List (String × ℕ)) (time now : ℕ)
      → time ≤ now
      → State c log time
      → State (maybe_prune now c) log now
  State-maybe_prune c log time now h k = elim (timestamps-maybe_prune key now c) [
    | inl kept ↦
        rw kept (Holds-wait (tier_of key) (times_of key log) time now h (timestamps c key) k)
    | inr (gone, stale) ↦
        rw gone
          (Holds-drop (tier_of key) (times_of key log) time now h (timestamps c key) w stale k)
  ]

  State-own :
      (c : Counter) (log : List (String × ℕ)) (now : ℕ)
      → State c log now
      → let out = admit key (tier_of key) now c in State out.1 (noted out.0.allowed key now log) now
  unfolding admit
  State-own c log now h =
      let tier = tier_of key in
      elim (Bool-cases
        (leb tier.max_requests (length (live (window tier) now (timestamps c key))))) [
          | inl full ↦
              rw (full, admit, str_eq_refl key)
                (Holds-refuse tier (times_of key log) now now (omega arith) (timestamps c key) h)
          | inr room ↦
              rw (room, admit, times_of-append key log ((key, now) ∷ []), str_eq_refl key)
                (Holds-allow tier (times_of key log) now now (omega arith) (timestamps c key) h
                  room)
        ]

  State-other :
      (c : Counter) (log : List (String × ℕ)) (k : String) (now : ℕ)
      → key ≢ k
      → State c log now
      → let out = admit k (tier_of k) now c in State out.1 (noted out.0.allowed k now log) now
  unfolding admit
  State-other c log k now other h =
      let tier = tier_of k in
      elim (Bool-cases (leb tier.max_requests (length (live (window tier) now (timestamps c k))))) [
        | inl full ↦ rw (full, admit, str_eq-other key k other) h
        | inr room ↦
            rw
              (
                room,
                admit,
                str_eq-other key k other,
                times_of-append key log ((k, now) ∷ []),
                str_eq-other k key (λ e. other (sym e)),
                append-nil (times_of key log),
              )
              h
      ]

  State-admit :
      (c : Counter) (log : List (String × ℕ)) (k : String) (now : ℕ)
      → State c log now
      → let out = admit k (tier_of k) now c in State out.1 (noted out.0.allowed k now log) now
  State-admit c log k now h = elim (Bool-cases (str_eq key k)) [
    | inl same ↦
        subst
          (λ j.
            let out = admit j (tier_of j) now c in State out.1 (noted out.0.allowed j now log) now)
          ((eq_iff key k).0 same) (State-own c log now h)
    | inr other ↦ State-other c log k now (λ e. ground (arith, other, (eq_iff key k).1 e)) h
  ]

  Trace-State :
      {c : Counter} {log : List (String × ℕ)} {time : ℕ}
      → Trace tier_of c log time
      → State c log time
  unfolding is_allowed IsSorted
  Trace-State (begin now) = record {
    sorted = tt;
    past = tt;
    tracks = λ later l. refl;
    small = omega arith;
  }
  Trace-State (next {c} {log} {time} k now p h) =
      State-admit (maybe_prune now c) log k now (State-maybe_prune c log time now h (Trace-State p))

-- However the calls of all the keys follow each other in time, the counter lets at most
-- `max_requests` calls of one key through in one window of its tier, where that window is no longer than
-- the 120 seconds after which the counter drops a key.
pub is_allowed-bounded :
    (tier_of : String → Tier) (key : String) (c : Counter) (log : List (String × ℕ))
    (time later : ℕ)
    → (tier_of key).window_seconds ≤ 120
    → Trace tier_of c log time
    → time ≤ later
    → length (live (window (tier_of key)) later (times_of key log)) ≤ (tier_of key).max_requests
is_allowed-bounded tier_of key c log time later w p h =
    let k = Trace-State tier_of key (omega (arith, w)) p in
    rw (k.tracks later h)
      (omega (arith, length-live (window (tier_of key)) later (timestamps c key), k.small))
