-- ===== src/Transaction/Keeps.antt =====
-- What code keeps true of the session, whether it returns or raises.
use keviq_core.Errors.{Result, ok, err}
use keviq_core.Transaction.{Session, continue}

-- The session that the code leaves satisfies `I`.
pub data Leaves {D C A : Type 0} (I : Session D C → Type 0) : Result A × Session D C → Type 0 where
  leaves : (r : Result A) (s : Session D C) → I s → Leaves I (r, s)

module _ {D C : Type 0} {I : Session D C → Type 0} where
  pub Leaves-bind :
      {A B : Type 0} {f : A → Session D C → Result B × Session D C} {out : Result A × Session D C}
      → Leaves I out
      → ((a : A) (s : Session D C) → I s → Leaves I (f a s))
      → Leaves I (continue out f)
  Leaves-bind (leaves (ok a) s h) k = k a s h
  Leaves-bind (leaves (err e) s h) k = leaves _ s h

  pub Leaves-inv : {A : Type 0} {out : Result A × Session D C} → Leaves I out → I out.1
  Leaves-inv (leaves r s h) = h
