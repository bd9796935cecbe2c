-- ===== src/Transaction/Outcomes.antt =====
-- Code that may raise, either way: what holds when it returns, and what holds when it raises.
use keviq_core.Prelude.{◌≡◌, refl, arith}
use mathlib.Core.Path.{subst}
use keviq_core.Errors.{Error, Result, ok, err}
use keviq_core.Transaction.{Session, continue, close}

-- What the code returned and left satisfies `Q`, or it raised and left what satisfies `E`.
pub data Outcome {D C A : Type 0} (Q : A → Session D C → Type 0) (E : Session D C → Type 0)
    : Result A × Session D C → Type 0 where
  returned : (a : A) (s : Session D C) → Q a s → Outcome Q E (ok a, s)
  raised : (e : Error) (s : Session D C) → E s → Outcome Q E (err e, s)

module _ {D C : Type 0} {E : Session D C → Type 0} where
  pub Outcome-bind :
      {A B : Type 0} {P : A → Session D C → Type 0} {Q : B → Session D C → Type 0}
      {f : A → Session D C → Result B × Session D C} {out : Result A × Session D C}
      → Outcome P E out
      → ((a : A) (s : Session D C) → P a s → Outcome Q E (f a s))
      → Outcome Q E (continue out f)
  Outcome-bind (returned a s h) k = k a s h
  Outcome-bind (raised e s h) k = raised e s h

  pub Outcome-weaken :
      {A : Type 0} {P Q : A → Session D C → Type 0} {out : Result A × Session D C}
      → Outcome P E out
      → ((a : A) (s : Session D C) → P a s → Q a s)
      → Outcome Q E out
  Outcome-weaken (returned a s h) k = returned a s (k a s h)
  Outcome-weaken (raised e s h) k = raised e s h

  -- Other words for either ending.
  pub Outcome-map :
      {A : Type 0} {P Q : A → Session D C → Type 0} {F : Session D C → Type 0}
      {out : Result A × Session D C}
      → Outcome P E out
      → ((a : A) (s : Session D C) → P a s → Q a s)
      → ((s : Session D C) → E s → F s)
      → Outcome Q F out
  Outcome-map (returned a s h) k l = returned a s (k a s h)
  Outcome-map (raised e s h) k l = raised e s (l s h)

  -- A result that is already there.
  pub Outcome-lift :
      {A : Type 0} {P : Session D C → Type 0} (r : Result A) (s : Session D C)
      → P s
      → (P s → E s)
      → Outcome (λ a s'. (r ≡ ok a) × P s') E (r, s)
  Outcome-lift (ok a) s h k = returned a s (refl, h)
  Outcome-lift (err e) s h k = raised e s (k h)

  -- Leaving a `with uow` block.
  pub Outcome-close :
      {A : Type 0} {P Q : A → Session D C → Type 0} {F : Session D C → Type 0}
      {out : Result A × Session D C}
      → Outcome P E out
      → ((a : A) (s : Session D C) → P a s → Q a (record s { db = s.committed }))
      → ((s : Session D C) → E s → F (record s { db = s.committed }))
      → Outcome Q F (close out)
  Outcome-close (returned a s h) k l = returned a _ (k a s h)
  Outcome-close (raised e s h) k l = raised e _ (l s h)

  pub Outcome-ok :
      {A : Type 0} {Q : A → Session D C → Type 0} {out : Result A × Session D C} (a : A)
      → Outcome Q E out
      → out.0 ≡ ok a
      → Q a out.1
  Outcome-ok {Q = Q} a (returned b s h) e =
      let same : b ≡ a = ground (arith, e) in subst (λ x. Q x s) same h
  Outcome-ok a (raised x s h) e = cc

  pub Outcome-err :
      {A : Type 0} {Q : A → Session D C → Type 0} {out : Result A × Session D C} (e : Error)
      → Outcome Q E out
      → out.0 ≡ err e
      → E out.1
  Outcome-err e (returned b s h) k = cc
  Outcome-err e (raised x s h) k = h

  -- Code that cannot have returned has raised.
  pub Outcome-raises :
      {A : Type 0} {Q : A → Session D C → Type 0} {out : Result A × Session D C}
      → Outcome Q E out
      → ((a : A) (s : Session D C) → ¬ Q a s)
      → ((e : Error) × (out.0 ≡ err e)) × E out.1
  Outcome-raises (returned a s h) k = absurd (k a s h)
  Outcome-raises (raised e s h) k = ((e, refl), h)

  -- What holds after either ending.
  pub Outcome-either :
      {A : Type 0} {Q : A → Session D C → Type 0} (R : Session D C → Type 0)
      {out : Result A × Session D C}
      → Outcome Q E out
      → ((a : A) (s : Session D C) → Q a s → R s)
      → ((s : Session D C) → E s → R s)
      → R out.1
  Outcome-either R (returned a s h) k l = k a s h
  Outcome-either R (raised e s h) k l = l s h
