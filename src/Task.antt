-- ===== src/Task.antt =====
-- Asynchronous functions of the crate. A task is run against a connection with the number of awaited
-- driver calls that complete before the caller drops the future; a future that is polled to the end
-- is one whose number is never used up.
use mssql_tiberius_bridge.Prelude.{ℕ, zero, suc}
use mssql_tiberius_bridge.Error.{Error, TdsError, Result, ok, err}

-- `TdsResult` of the driver.
pub data TdsResult (A : Type 0) : Type 0 where
  tds_ok : A → TdsResult A
  tds_err : TdsError → TdsResult A

-- `.map_err(Error::Tds)`.
abbrev pub map_err : {A : Type 0} → TdsResult A → Result A
map_err (tds_ok a) = ok a
map_err (tds_err e) = err (Error.tds e)

-- A future either completes with a result or is dropped while it is pending.
pub data Outcome (A : Type 0) : Type 0 where
  completed : Result A → Outcome A
  dropped : Outcome A

abbrev pub Task : Type 0 → Type 0 → Type 0
Task S A = S → ℕ → Outcome A × S × ℕ

module _ {S A : Type 0} where
  abbrev pub return : Result A → Task S A
  return r s n = (completed r, s, n)

  -- One awaited driver call. Dropping the future at this point leaves the driver in the state that
  -- `cut` describes.
  unfoldable pub await : (S → S) → (S → TdsResult A × S) → Task S A
  await cut call s zero = (dropped, cut s, zero)
  await cut call s (suc n) = let (r, s') = call s in (completed (map_err r), s', n)

  -- Reading the connection, without I/O.
  abbrev pub gets : (S → A) → Task S A
  gets f s n = (completed (ok (f s)), s, n)

module _ {S : Type 0} where
  -- A driver call that is not awaited.
  abbrev pub modify : (S → S) → Task S (Unit {0})
  modify f s n = (completed (ok tt), f s, n)

module _ {S A B : Type 0} where
  abbrev pub continue : Outcome A → (A → Task S B) → Task S B
  continue (completed (ok a)) f s n = f a s n
  continue (completed (err e)) f s n = (completed (err e), s, n)
  continue dropped f s n = (dropped, s, n)

  infixl 5 ◌>>=◌ ◌>>◌
  -- The `?` operator after an await.
  abbrev pub ◌>>=◌ : Task S A → (A → Task S B) → Task S B
  ◌>>=◌ m f s n = let (r, s', n') = m s n in continue r f s' n'

  abbrev pub ◌>>◌ : Task S A → Task S B → Task S B
  m >> k = m >>= λ _. k
