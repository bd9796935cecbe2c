-- ===== src/Transaction.antt =====
-- The unit of work that the services share (infrastructure/db/unit_of_work.py of each): code over
-- the tables of a database, with the clock readings and the identifiers that it draws.
pub mod Returns
pub mod Outcomes
pub mod Keeps
use keviq_core.Prelude.{ℕ, ◌+◌, List, [], ◌∷◌, ◌++◌}
use keviq_core.Errors.{Error, Result, ok, err}

-- `db` is what the open transaction sees, `committed` what the database keeps; `clock` and `uuids`
-- give the n-th reading of the clock and the n-th identifier. `D` has the tables, and `C` the calls
-- of other services, which are on record in order.
pub record Session (D C : Type 0) : Type 0 where
  pub db : D
  pub committed : D
  pub clock : ℕ → ℕ
  pub reads : ℕ
  pub uuids : ℕ → ℕ
  pub draws : ℕ
  pub port_calls : List C

module _ {D C : Type 0} where
  -- Code that may raise; what it did to the session before stays done.
  abbrev pub continue :
      {A B : Type 0}
      → Result A × Session D C
      → (A → Session D C → Result B × Session D C)
      → Result B × Session D C
  continue (ok a, s) f = f a s
  continue (err e, s) f = (err e, s)

  infixl 5 ◌>>=◌
  abbrev pub ◌>>=◌ :
      {A B : Type 0}
      → (Session D C → Result A × Session D C)
      → (A → Session D C → Result B × Session D C)
      → Session D C
      → Result B × Session D C
  ◌>>=◌ m f s = continue (m s) f

  infixl 5 ◌>>◌
  abbrev pub ◌>>◌ :
      {A B : Type 0}
      → (Session D C → Result A × Session D C)
      → (Session D C → Result B × Session D C)
      → Session D C
      → Result B × Session D C
  ◌>>◌ m k s = continue (m s) (λ _. k)

  -- `datetime.now(timezone.utc)`
  abbrev pub now : Session D C → Result ℕ × Session D C
  now s = (ok (s.clock s.reads), record s { reads = s.reads + 1 })

  -- `uuid4()`
  abbrev pub uuid4 : Session D C → Result ℕ × Session D C
  uuid4 s = (ok (s.uuids s.draws), record s { draws = s.draws + 1 })

  -- `uow.commit()`
  unfoldable pub commit : Session D C → Result (Unit {0}) × Session D C
  commit s = (ok tt, record s { committed = s.db })

  -- A call of another service is on record.
  unfoldable pub ask : C → Session D C → Result (Unit {0}) × Session D C
  ask c s = (ok tt, record s { port_calls = s.port_calls ++ c ∷ [] })

  module _ {A : Type 0} where
    abbrev pub pure : A → Session D C → Result A × Session D C
    pure a s = (ok a, s)

    abbrev pub raise : Error → Session D C → Result A × Session D C
    raise e s = (err e, s)

    abbrev pub lift : Result A → Session D C → Result A × Session D C
    lift r s = (r, s)

    abbrev pub recover :
        (Error → Session D C → Result A × Session D C)
        → Result A × Session D C
        → Result A × Session D C
    recover handler (ok a, s) = (ok a, s)
    recover handler (err e, s) = handler e s

    -- `try: m` with `except Exception: handler`
    abbrev pub try_except :
        (Session D C → Result A × Session D C)
        → (Error → Session D C → Result A × Session D C)
        → Session D C
        → Result A × Session D C
    try_except m handler s = recover handler (m s)

    abbrev pub close : Result A × Session D C → Result A × Session D C
    close (r, s) = (r, record s { db = s.committed })

    -- `with uow: body`. What was not committed is gone when the block is left.
    unfoldable pub with_uow :
        (Session D C → Result A × Session D C) → Session D C → Result A × Session D C
    with_uow body s = close (body (record s { db = s.committed }))

  -- `for a in items: body(a)`
  unfoldable pub for_each :
      {A : Type 0}
      → (A → Session D C → Result (Unit {0}) × Session D C)
      → List A
      → Session D C
      → Result (Unit {0}) × Session D C
  for_each body [] = pure tt
  for_each body (a ∷ rest) = do body a; for_each body rest
