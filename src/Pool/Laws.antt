-- ===== src/Pool/Laws.antt =====
-- pool.rs: which connections a pool may hand out again.
use mssql_tiberius_bridge.Prelude.{ℕ, ◌≡◌, ◌≢◌, ◌↔◌, true, false, arith}
use mssql_tiberius_bridge.Driver.{Tds}
use mssql_tiberius_bridge.Connection.{Connection, HealthLaws}
use mssql_tiberius_bridge.Operation
use mssql_tiberius_bridge.Client.{
  Client, ensure_usable, ping, reset_session, reset_body, settle_reset,
}
use mssql_tiberius_bridge.Pool.{
  RecyclingMethod, TdsManager, Recycled, recycle_result, prepare_for_checkout, recycle,
}

module _ {t : Tds} (k : Connection t) {Config : Type 0} (manager : TdsManager Config) where
  -- A connection that recycling refuses, or whose recycling is abandoned, is dead afterwards,
  -- whatever the recycling method, provided that the driver's `mark_connection_dead` marks the
  -- connection.
  pub recycle-refused :
      (fresh : ℕ) (conn : Client k.Conn) (n : ℕ)
      → HealthLaws k
      → (recycle k manager fresh conn n).0 ≢ Recycled.recycled
      → k.is_connection_dead (recycle k manager fresh conn n).1.inner ≡ true
  unfolding recycle recycle_result prepare_for_checkout ensure_usable ping reset_session
      settle_reset Operation.ensure_usable
  recycle-refused fresh conn n laws h = ground (arith, laws.marked (reset_body k conn.inner n).1)

  -- Recycling with `Ping` is a check of the cached health alone: it hands the connection out if and
  -- only if that is not known dead, and leaves client and connection as they are.
  pub recycle-ping :
      (fresh : ℕ) (conn : Client k.Conn) (n : ℕ)
      → manager.recycling_method ≡ RecyclingMethod.ping
      → (((recycle k manager fresh conn n).0 ≡ Recycled.recycled)
          ↔ (k.is_connection_dead conn.inner ≡ false))
        × ((recycle k manager fresh conn n).1 ≡ conn)
        × ((recycle k manager fresh conn n).2 ≡ n)
  unfolding recycle recycle_result prepare_for_checkout ensure_usable ping Operation.ensure_usable
  recycle-ping fresh conn n h = ((λ e. ground arith, λ e. ground arith), ground arith, ground arith)
