-- ===== src/Operation/Laws.antt =====
-- operation.rs: cancellation retires the connection, completion leaves its health to the driver.
use mssql_tiberius_bridge.Prelude.{ℕ, ◌≡◌, true, arith}
use mssql_tiberius_bridge.Error.{err}
use mssql_tiberius_bridge.Task.{Task, completed, dropped}
use mssql_tiberius_bridge.Operation.{ConnectionHealth, closed, guarded}

module _ {S A : Type 0} (health : ConnectionHealth S) where
  -- A known-dead client is refused before the body runs: nothing is sent, nothing changes.
  pub guarded-dead :
      (body : Task S A) (s : S) (n : ℕ)
      → health.is_dead s ≡ true
      → guarded health body s n ≡ (completed (err closed), s, n)
  unfolding guarded
  guarded-dead body s n h = ground arith

  -- A guarded operation that was dropped has left a dead connection.
  pub guarded-dropped :
      (body : Task S A) (s : S) (n : ℕ)
      → ((s : S) → health.is_dead (health.mark_dead s) ≡ true)
      → (guarded health body s n).0 ≡ dropped
      → health.is_dead (guarded health body s n).1 ≡ true
  unfolding guarded
  guarded-dropped body s n marked h = ground (arith, marked (body s n).1)
