-- ===== src/Gateway/RateLimit.antt =====
-- apps/api-gateway/src/api/rate_limit_middleware.py: `SlidingWindowCounter`. Times are in microseconds,
-- and their float arithmetic is taken as exact. A call runs alone, as the locks of the key and of the
-- call count make it; the dict of windows is a function of the key.
pub mod Window
pub mod Bound
use keviq_core.Prelude.{
  ℕ, zero, suc, ◌+◌, ◌-◌, ◌*◌, ◌/◌, String, Bool, true, false, Option, none, some, List, [], ◌∷◌,
  ◌++◌, length, ltb, leb, str_eq, where_test, if◌then◌else◌,
}

pub record Tier : Type 0 where
  pub max_requests : ℕ
  pub window_seconds : ℕ

abbrev pub second : ℕ
second = 1000000

-- `tier.window_seconds`, in the unit of the times
abbrev pub window : Tier → ℕ
window tier = tier.window_seconds * second

pub record Counter : Type 0 where
  pub windows : String → Option (List ℕ)
  pub call_count : ℕ
  pub last_prune : ℕ

-- `SlidingWindowCounter()`
abbrev pub new : (now : ℕ) → Counter
new now = record { windows = λ _. none; call_count = 0; last_prune = now }

-- `self._windows.get(key, [])`
abbrev or_nil : Option (List ℕ) → List ℕ
or_nil none = []
or_nil (some timestamps) = timestamps

abbrev pub timestamps : Counter → String → List ℕ
timestamps c key = or_nil (c.windows key)

-- `ts[-1]`, or the default for no timestamp
abbrev pub newest : ℕ → List ℕ → ℕ
newest d [] = d
newest d (t ∷ ts) = newest t ts

-- `not ts or ts[-1] < now - max_age`
abbrev pub is_stale : (max_age now : ℕ) → List ℕ → Bool
is_stale max_age now [] = true
is_stale max_age now (t ∷ ts) = ltb (newest t ts + max_age) now

abbrev drop_stale : (max_age now : ℕ) → Option (List ℕ) → Option (List ℕ)
drop_stale max_age now none = none
drop_stale max_age now (some ts) = if is_stale max_age now ts then none else some ts

unfoldable pub prune_stale : (max_age now : ℕ) → Counter → Counter
prune_stale max_age now c = record c { windows = λ key. drop_stale max_age now (c.windows key) }

-- `_maybe_prune`, with 1000 calls and 60 seconds between two runs, and 120 seconds of age
unfoldable pub maybe_prune : (now : ℕ) → Counter → Counter
unfolding prune_stale
maybe_prune now c =
    let counted = record c { call_count = c.call_count + 1 } in
    if ltb counted.call_count 1000
    then counted
    else if ltb now (c.last_prune + 60 * second)
    then counted
    else prune_stale (120 * second) now (record counted { call_count = 0; last_prune = now })

-- `max(1, int(oldest + window - now) + 1)`; the oldest entry has not expired.
unfoldable pub compute_reset : List ℕ → Tier → (now : ℕ) → ℕ
compute_reset [] tier now = tier.window_seconds
compute_reset (oldest ∷ _) tier now = (oldest + window tier - now) / second + 1

-- `t > now - window`
abbrev pub is_live : (span now : ℕ) → ℕ → Bool
is_live span now t = ltb now (t + span)

abbrev set : String → List ℕ → Counter → Counter
set key ts c = record c { windows = λ k. if str_eq k key then some ts else c.windows k }

pub record Verdict : Type 0 where
  pub allowed : Bool
  pub remaining : ℕ
  pub reset_after : ℕ

-- What `is_allowed` does once it holds the lock of the key.
unfoldable pub admit : String → Tier → (now : ℕ) → Counter → Verdict × Counter
unfolding compute_reset
admit key tier now c =
    let live = where_test (is_live (window tier) now) (timestamps c key) in
    let reset = compute_reset live tier now in
    if leb tier.max_requests (length live)
    then (record { allowed = false; remaining = 0; reset_after = reset }, set key live c)
    else (
      record {
        allowed = true;
        remaining = tier.max_requests - length live - 1;
        reset_after = reset;
      },
      set key (live ++ now ∷ []) c,
    )

unfoldable pub is_allowed : String → Tier → (now : ℕ) → Counter → Verdict × Counter
unfolding maybe_prune admit
is_allowed key tier now c = admit key tier now (maybe_prune now c)
