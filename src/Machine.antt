-- ===== src/Machine.antt =====
-- The shape that every entity's `_transition` shares: refuse from a terminal state, refuse an edge
-- that the table does not have, otherwise move.
use keviq_core.Prelude.{◌≡◌, Bool, if◌then◌else◌}
use keviq_core.Errors.{invalid_transition, terminal_state, Result, ok, err}

-- A state machine: which states are terminal, and the table `target in _TRANSITIONS[current]`.
pub record Machine (S : Type 0) : Type 0 where
  pub is_terminal : S → Bool
  pub allowed : S → S → Bool

module _ {S : Type 0} (m : Machine S) where
  -- The guard of `_transition`.
  unfoldable pub fire : S → S → Result S
  fire current target =
      if m.is_terminal current
      then err terminal_state
      else if m.allowed current target
      then ok target
      else err invalid_transition

  -- A chain of moves that were all accepted.
  pub data Reach (s : S) : S → Type 0 where
    here : Reach s s
    next : {t : S} (u : S) → Reach s t → fire t u ≡ ok u → Reach s u
