-- ===== src/Transaction/Returns.antt =====
-- Total correctness: the code returns, and its result and the session that it leaves satisfy a
-- condition.
use keviq_core.Prelude.{◌≡◌, refl, sym}
use mathlib.Core.Path.{subst}
use keviq_core.Errors.{Error, Result, ok}
use keviq_core.Transaction.{Session, continue, close, recover}

-- The code returned, and what it returned and left satisfies `Q`.
pub data Returns {D C A : Type 0} (Q : A → Session D C → Type 0)
    : Result A × Session D C → Type 0 where
  returned : (a : A) (s : Session D C) → Q a s → Returns Q (ok a, s)

module _ {D C : Type 0} where
  pub Returns-bind :
      {A B : Type 0} {Q : B → Session D C → Type 0} {f : A → (Session D C → Result B × Session D C)}
      {P : A → Session D C → Type 0} {out : Result A × Session D C}
      → Returns P out
      → ((a : A) (s : Session D C) → P a s → Returns Q (f a s))
      → Returns Q (continue out f)
  Returns-bind (returned a s h) k = k a s h

  pub Returns-weaken :
      {A : Type 0} {Q P : A → Session D C → Type 0} {out : Result A × Session D C}
      → Returns P out
      → ((a : A) (s : Session D C) → P a s → Q a s)
      → Returns Q out
  Returns-weaken (returned a s h) k = returned a s (k a s h)

  -- The result and the session that a call returned.
  pub Returns-inv :
      {A : Type 0} {Q : A → Session D C → Type 0} {out : Result A × Session D C}
      → Returns Q out
      → (a : A) × (out.0 ≡ ok a) × Q a out.1
  Returns-inv (returned a s h) = (a, refl, h)

  -- Leaving a `with uow` block.
  pub Returns-close :
      {A : Type 0} {Q P : A → Session D C → Type 0} {out : Result A × Session D C}
      → Returns P out
      → ((a : A) (s : Session D C) → P a s → Q a (record s { db = s.committed }))
      → Returns Q (close out)
  Returns-close (returned a s h) k = returned a _ (k a s h)

  -- A block that returns does not reach its handler.
  pub Returns-recover :
      {A : Type 0} {Q : A → Session D C → Type 0}
      (handler : Error → (Session D C → Result A × Session D C)) {out : Result A × Session D C}
      → Returns Q out
      → Returns Q (recover handler out)
  Returns-recover handler (returned a s h) = returned a s h

  -- A step whose outcome is known.
  pub Returns-step :
      {A B : Type 0} {Q : B → Session D C → Type 0} (f : A → (Session D C → Result B × Session D C))
      {out : Result A × Session D C} (a : A) (s : Session D C)
      → out ≡ (ok a, s)
      → Returns Q (f a s)
      → Returns Q (continue out f)
  Returns-step {Q = Q} f a s e h = subst (λ o. Returns Q (continue o f)) (sym e) h
