-- ===== src/Pool.antt =====
-- src/pool.rs: how a pooled connection is prepared for its next borrower. The pool itself is deadpool's.
pub mod Laws
pub mod Isolation
use mssql_tiberius_bridge.Prelude.{ℕ, Bool, true, false}
use mssql_tiberius_bridge.Driver.{Tds}
use mssql_tiberius_bridge.Error.{Error, Result, ok, err}
use mssql_tiberius_bridge.Task.{Task, Outcome, completed, dropped}
use mssql_tiberius_bridge.Connection.{Connection}
use mssql_tiberius_bridge.Client
use mssql_tiberius_bridge.Client.{Client, ensure_usable, reset_session}

pub data RecyclingMethod : Type 0 where
  reset ping : RecyclingMethod

-- `#[default]`.
unfoldable default_method : RecyclingMethod
default_method = RecyclingMethod.reset

pub record TdsManager (Config : Type 0) : Type 0 where
  pub config : Config
  pub recycling_method : RecyclingMethod

module _ {Config : Type 0} where
  unfoldable pub new : Config → TdsManager Config
  unfolding default_method
  new config = record { config = config; recycling_method = default_method }

  unfoldable with_recycling_method : TdsManager Config → RecyclingMethod → TdsManager Config
  with_recycling_method manager method = record manager { recycling_method = method }

-- `RecycleError` of deadpool, as far as the crate constructs it.
pub data RecycleError : Type 0 where
  backend : Error → RecycleError

-- What becomes of the future of `recycle`.
pub data Recycled : Type 0 where
  recycled : Recycled
  refused : RecycleError → Recycled
  abandoned : Recycled

-- `.map_err(RecycleError::Backend)`.
pub recycle_result : Outcome (Unit {0}) → Recycled
recycle_result (completed (ok _)) = Recycled.recycled
recycle_result (completed (err e)) = Recycled.refused (RecycleError.backend e)
recycle_result dropped = Recycled.abandoned

module _ {t : Tds} (k : Connection t) where
  pub prepare_for_checkout : RecyclingMethod → ℕ → Task (Client k.Conn) (Unit {0})
  prepare_for_checkout RecyclingMethod.reset fresh = reset_session k fresh
  prepare_for_checkout RecyclingMethod.ping fresh = Client.ping k

module _ {t : Tds} (k : Connection t) {Config : Type 0} where
  -- `Manager::recycle`; `fresh` is the address that a reset allocates.
  unfoldable pub recycle : TdsManager Config → ℕ → Client k.Conn → ℕ → Recycled × Client k.Conn × ℕ
  unfolding prepare_for_checkout recycle_result
  recycle manager fresh conn n = elim (ensure_usable k conn) [
    | err e ↦ (Recycled.refused (RecycleError.backend e), conn, n)
    | ok _ ↦
        let (outcome, conn', n') = prepare_for_checkout k manager.recycling_method fresh conn n in
        (recycle_result outcome, conn', n')
  ]
