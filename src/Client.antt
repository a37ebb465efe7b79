-- ===== src/Client.antt =====
-- src/client.rs: the operations of `Client` over one driver connection.
mod Collect
pub mod Fuel
pub mod Progress
pub mod Safety
pub mod Session
unfoldable pub use Collect.{
  call, read_rows, find_rows, read_set, collect_sets, collect_results, count_rows, count_statement,
  count_statements, collect_execute_results,
}
use mssql_tiberius_bridge.Prelude.{
  ℕ, Text, str, Bool, true, false, Option, none, some, List, [], ◌∷◌, is_empty, if◌then◌else◌,
}
use mssql_tiberius_bridge.Driver.{Tds, SqlType}
use mssql_tiberius_bridge.Error.{Error, Result, ok, err}
use mssql_tiberius_bridge.Query.Params.{RpcParameter, build_params_with_string_encoding}
use mssql_tiberius_bridge.Query.Results.{QueryResult, ExecuteResult}
use mssql_tiberius_bridge.Row.Cells.{Row}
use mssql_tiberius_bridge.Task.{
  Task, TdsResult, Outcome, completed, dropped, return, await, gets, modify, ◌>>=◌, ◌>>◌,
}
use mssql_tiberius_bridge.Connection.{Connection, StatementResult}
use mssql_tiberius_bridge.Operation
use mssql_tiberius_bridge.Operation.{ConnectionHealth, guarded}
use mssql_tiberius_bridge.Prepared
use mssql_tiberius_bridge.Prepared.{PreparedStatement, validate_session, handle_parameter}

-- `Client`: the connection, the encoding of text parameters, and the address that its statements
-- carry.
pub record Client (S : Type 0) : Type 0 where
  pub inner : S
  pub send_string_parameters_as_unicode : Bool
  pub prepared_session : ℕ

-- A task over the connection, as one over the client that borrows it.
abbrev pub on_inner : {S A : Type 0} → Task S A → Task (Client S) A
on_inner m c n = let (r, s', n') = m c.inner n in (r, record c { inner = s' }, n')

module _ {t : Tds} (k : Connection t) where
  -- `impl ConnectionHealth for TdsClient`.
  abbrev pub health : ConnectionHealth k.Conn
  health = record { is_dead = k.is_connection_dead; mark_dead = k.mark_connection_dead }

  -- `Client::ensure_usable`.
  unfoldable pub ensure_usable : Client k.Conn → Result (Unit {0})
  ensure_usable c = Operation.ensure_usable health c.inner

  -- `Client::ping`: no I/O.
  unfoldable pub ping : Task (Client k.Conn) (Unit {0})
  unfolding ensure_usable
  ping c n = (completed (ensure_usable c), c, n)

  module _ (alloc : ℕ → ℕ) where
    -- `Client::simple_query`.
    unfoldable pub simple_query : Text → Task (Client k.Conn) (QueryResult (Row t))
    simple_query sql =
        on_inner (
          guarded health (do call k k.close_query; call k (k.execute sql); collect_results k alloc))

    -- `Client::query`.
    unfoldable pub query : Text → List (SqlType t) → Task (Client k.Conn) (QueryResult (Row t))
    unfolding simple_query
    query sql [] c n = simple_query sql c n
    query sql (p ∷ ps) c n =
        let rpc_params =
          build_params_with_string_encoding (p ∷ ps) c.send_string_parameters_as_unicode in
        on_inner
          (guarded health (do
            call k k.close_query
            call k (k.execute_sp_executesql sql rpc_params)
            collect_results k alloc))
          c n

  -- `Client::execute`: what is sent depends on whether there are parameters.
  pub send_statement : Text → List (SqlType t) → Bool → Task k.Conn StatementResult
  send_statement sql [] unicode = call k (k.execute sql)
  send_statement sql (p ∷ ps) unicode =
      call k (k.execute_sp_executesql sql (build_params_with_string_encoding (p ∷ ps) unicode))

  pub execute : Text → List (SqlType t) → Task (Client k.Conn) ExecuteResult
  unfolding send_statement
  execute sql params c n =
      on_inner
        (guarded health (do
          call k k.close_query
          result ← send_statement sql params c.send_string_parameters_as_unicode
          collect_execute_results k result))
        c n

  -- `Client::prepare`.
  unfoldable pub prepare : Text → List (SqlType t) → Task (Client k.Conn) PreparedStatement
  prepare sql param_types c n =
      on_inner
        (guarded health (do
          call k k.close_query
          Prepared.prepare k sql param_types c.send_string_parameters_as_unicode
              c.prepared_session))
        c n

  -- `if params.is_empty() { None } else { Some(build_params_with_string_encoding(…)) }`.
  unfoldable pub rpc_parameters : List (SqlType t) → Bool → Option (List (RpcParameter t))
  rpc_parameters [] unicode = none
  rpc_parameters (p ∷ ps) unicode = some (build_params_with_string_encoding (p ∷ ps) unicode)

  -- The checks that stand before a statement is used.
  pub check_statement : PreparedStatement → Task (Client k.Conn) (Unit {0})
  unfolding ensure_usable
  check_statement stmt = do
    λ c n. (completed (ensure_usable c), c, n)
    λ c n. (completed (validate_session stmt c.prepared_session), c, n)

  -- `Client::query_prepared`.
  pub query_prepared :
      (ℕ → ℕ) → PreparedStatement → List (SqlType t) → Task (Client k.Conn) (QueryResult (Row t))
  unfolding check_statement rpc_parameters
  query_prepared alloc stmt params = do
    check_statement stmt
    λ c n.
        on_inner
          (guarded health (do
            call k k.close_query
            call k (
                k.execute_stored_procedure (str "sp_execute") (some (handle_parameter stmt))
                  (rpc_parameters params c.send_string_parameters_as_unicode))
            collect_results k alloc))
          c n

  -- `Client::execute_prepared`.
  pub execute_prepared : PreparedStatement → List (SqlType t) → Task (Client k.Conn) ExecuteResult
  unfolding check_statement rpc_parameters
  execute_prepared stmt params = do
    check_statement stmt
    λ c n.
        on_inner
          (guarded health (do
            call k k.close_query
            result ← call k (
                k.execute_stored_procedure (str "sp_execute") (some (handle_parameter stmt))
                  (rpc_parameters params c.send_string_parameters_as_unicode))
            collect_execute_results k result))
          c n

  -- `Client::unprepare`.
  pub unprepare : PreparedStatement → Task (Client k.Conn) (Unit {0})
  unfolding check_statement
  unprepare stmt = do
    check_statement stmt
    λ c n.
        on_inner
          (guarded health (do
            call k k.close_query
            call k (
                k.execute_stored_procedure (str "sp_unprepare") (some (handle_parameter stmt)) none)
            call k k.close_query))
          c n

  -- The body of `reset_session` behind its guard.
  pub reset_body : Task k.Conn (Unit {0})
  reset_body = do
    call k k.close_query
    modify k.prepare_reset_connection
    call k (k.execute (str "SET TRANSACTION ISOLATION LEVEL READ COMMITTED"))
    call k k.close_query

  -- `impl Drop for SessionReset`: anything but a completed reset marks the connection dead.
  unfoldable pub settle_reset : Outcome (Unit {0}) × k.Conn × ℕ → Outcome (Unit {0}) × k.Conn × ℕ
  settle_reset (completed (ok _), s, n) = (completed (ok tt), s, n)
  settle_reset (completed (err e), s, n) = (completed (err e), k.mark_connection_dead s, n)
  settle_reset (dropped, s, n) = (dropped, k.mark_connection_dead s, n)

  -- `Client::reset_session`, where `fresh` is the address of the new `Arc`.
  unfoldable pub reset_session : ℕ → Task (Client k.Conn) (Unit {0})
  unfolding ensure_usable reset_body settle_reset
  reset_session fresh = do
    λ c n. (completed (ensure_usable c), c, n)
    λ c n. (completed (ok tt), record c { prepared_session = fresh }, n)
    on_inner (λ s n. settle_reset (reset_body s n))
