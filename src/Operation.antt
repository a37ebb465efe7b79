-- ===== src/Operation.antt =====
-- src/operation.rs: the guard that makes a dropped operation retire its connection.
pub mod Laws
use mssql_tiberius_bridge.Prelude.{ℕ, ◌≡◌, str, Bool, true, false, if◌then◌else◌}
use mssql_tiberius_bridge.Error.{Error, TdsError, Result, ok, err}
use mssql_tiberius_bridge.Task.{Task, Outcome, completed, dropped}

-- The trait `ConnectionHealth`.
pub record ConnectionHealth (S : Type 0) : Type 0 where
  pub is_dead : S → Bool
  pub mark_dead : S → S

abbrev pub closed : Error
closed =
    Error.tds (
      TdsError.connection_closed
        (str "Connection is known dead; discard this Client and reconnect"))

-- `Operation`: the borrowed client, and whether dropping it marks the client dead.
pub record Operation (S : Type 0) : Type 0 where
  pub client : S
  pub armed : Bool

module _ {S : Type 0} (health : ConnectionHealth S) where
  unfoldable pub ensure_usable : S → Result (Unit {0})
  ensure_usable client = if health.is_dead client then err closed else ok tt

  -- `Operation::new`.
  unfoldable pub new : S → Result (Operation S)
  unfolding ensure_usable
  new client = elim (ensure_usable client) [
    | ok _ ↦ ok (record { client = client; armed = true })
    | err e ↦ err e
  ]

  -- `impl Drop for Operation`: the client that the borrow gives back.
  unfoldable pub drop : Operation S → S
  drop operation = if operation.armed then health.mark_dead operation.client else operation.client

  module _ {A : Type 0} where
    -- `Operation::complete` disarms the guard and gives the result back.
    unfoldable pub complete : Operation S → Result A → Result A × S
    unfolding drop
    complete operation result = (result, drop (record operation { armed = false }))

    -- The end of the block that holds the guard: completed, or dropped with the guard armed.
    unfoldable pub settle : Operation S → Outcome A × S × ℕ → Outcome A × S × ℕ
    unfolding complete
    settle operation (completed result, client, n) =
        let (result', client') = complete (record operation { client = client }) result in
        (completed result', client', n)
    settle operation (dropped, client, n) =
        (dropped, drop (record operation { client = client }), n)

    -- `let operation = Operation::new(client)?; let result = body.await; operation.complete(result)`.
    unfoldable pub guarded : Task S A → Task S A
    unfolding new settle
    guarded body client n = elim (new client) [
      | ok operation ↦ settle operation (body operation.client n)
      | err e ↦ (completed (err e), client, n)
    ]
