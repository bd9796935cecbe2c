-- ===== src/Gateway/Examples.antt =====
-- The rate limiter at concrete calls.
use keviq_core.Prelude.{ℕ, ◌≡◌, ◌≤◌, refl, String, Bool, true, false, List, [], ◌∷◌, length, arith}
use keviq_core.Gateway.RateLimit.{Tier, window, Counter, new, is_allowed}
use keviq_core.Gateway.RateLimit.Window.{live}
use keviq_core.Gateway.RateLimit.Bound.{Trace, begin, next, times_of, is_allowed-bounded}

-- Two calls in a minute.
abbrev tier : String → Tier
tier key = record { max_requests = 2; window_seconds = 60 }

abbrev served : List ℕ → Counter → List Bool
served [] c = []
served (now ∷ rest) c =
    let (verdict, c') = is_allowed "ip" (tier "ip") now c in verdict.allowed ∷ served rest c'

-- The third call within a minute is refused, and a fourth after it is let through.
served_test :
    served (20000000 ∷ 30000000 ∷ 40000000 ∷ 81000000 ∷ []) (new 0)
    ≡ true ∷ true ∷ false ∷ true ∷ []
unfolding is_allowed
served_test = refl

abbrev counter : Counter
counter = (is_allowed "ip" (tier "ip") 20 (new 10)).1

counter-Trace : Trace tier counter (("ip", 20) ∷ []) 20
unfolding is_allowed
counter-Trace = next "ip" 20 (begin 10) (omega arith)

is_allowed-bounded_example :
    length (live (window (tier "ip")) 30 (times_of "ip" (("ip", 20) ∷ []))) ≤ 2
is_allowed-bounded_example =
    is_allowed-bounded tier "ip" counter (("ip", 20) ∷ []) 20 30 (omega arith) counter-Trace
      (omega arith)
