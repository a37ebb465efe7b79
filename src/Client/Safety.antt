-- ===== src/Client/Safety.antt =====
-- client.rs, the cancellation contract of `Client`, for every operation at once.
use mssql_tiberius_bridge.Prelude.{ℕ, ◌≡◌, Text, true, List, [], ◌∷◌, arith}
use mssql_tiberius_bridge.Driver.{Tds, SqlType}
use mssql_tiberius_bridge.Error.{err}
use mssql_tiberius_bridge.Query.Results.{QueryResult, ExecuteResult}
use mssql_tiberius_bridge.Row.Cells.{Row}
use mssql_tiberius_bridge.Task.{Task, completed, dropped, ◌>>◌}
use mssql_tiberius_bridge.Connection.{Connection, HealthLaws}
use mssql_tiberius_bridge.Operation
use mssql_tiberius_bridge.Operation.{closed, guarded}
use mssql_tiberius_bridge.Operation.Laws.{guarded-dead, guarded-dropped}
use mssql_tiberius_bridge.Prepared.{PreparedStatement}
use mssql_tiberius_bridge.Client.{
  Client, health, ensure_usable, ping, simple_query, query, execute, prepare, check_statement,
  query_prepared, execute_prepared, unprepare, settle_reset, reset_session, on_inner, reset_body,
}

-- The operations of a client that may send something, with their arguments.
pub data Request (t : Tds) : Type 0 where
  run_simple_query : Text → Request t
  run_query : Text → List (SqlType t) → Request t
  run_execute : Text → List (SqlType t) → Request t
  run_prepare : Text → List (SqlType t) → Request t
  run_query_prepared : PreparedStatement → List (SqlType t) → Request t
  run_execute_prepared : PreparedStatement → List (SqlType t) → Request t
  run_unprepare : PreparedStatement → Request t
  run_reset : ℕ → Request t
  run_ping : Request t

abbrev Answer : {t : Tds} → Request t → Type 0
Answer {t} (Request.run_simple_query sql) = QueryResult (Row t)
Answer {t} (Request.run_query sql params) = QueryResult (Row t)
Answer (Request.run_execute sql params) = ExecuteResult
Answer (Request.run_prepare sql params) = PreparedStatement
Answer {t} (Request.run_query_prepared stmt params) = QueryResult (Row t)
Answer (Request.run_execute_prepared stmt params) = ExecuteResult
Answer (Request.run_unprepare stmt) = Unit {0}
Answer (Request.run_reset fresh) = Unit {0}
Answer Request.run_ping = Unit {0}

module _ {t : Tds} (k : Connection t) {A : Type 0} where
  on_inner-dead :
      (body : Task k.Conn A) (c : Client k.Conn) (n : ℕ)
      → k.is_connection_dead c.inner ≡ true
      → on_inner (guarded (health k) body) c n ≡ (completed (err closed), c, n)
  on_inner-dead body c n h = rw (guarded-dead (health k) body c.inner n h)

  on_inner-dropped :
      (body : Task k.Conn A) (c : Client k.Conn) (n : ℕ)
      → HealthLaws k
      → (on_inner (guarded (health k) body) c n).0 ≡ dropped
      → k.is_connection_dead (on_inner (guarded (health k) body) c n).1.inner ≡ true
  on_inner-dropped body c n laws h = guarded-dropped (health k) body c.inner n laws.marked h

module _ {t : Tds} (k : Connection t) {A : Type 0} where
  -- A statement's checks stand in front of the rest.
  check_statement-dead :
      (stmt : PreparedStatement) (rest : Task (Client k.Conn) A) (c : Client k.Conn) (n : ℕ)
      → k.is_connection_dead c.inner ≡ true
      → (check_statement k stmt >> rest) c n ≡ (completed (err closed), c, n)
  unfolding check_statement ensure_usable Operation.ensure_usable
  check_statement-dead stmt rest c n h = ground arith

  check_statement-dropped :
      (stmt : PreparedStatement) (rest : Task (Client k.Conn) A) (c : Client k.Conn) (n : ℕ)
      → ((rest c n).0 ≡ dropped → k.is_connection_dead (rest c n).1.inner ≡ true)
      → ((check_statement k stmt >> rest) c n).0 ≡ dropped
      → k.is_connection_dead ((check_statement k stmt >> rest) c n).1.inner ≡ true
  unfolding check_statement ensure_usable Operation.ensure_usable
  check_statement-dropped stmt rest c n ih h = ground (arith, ih)

module _ {t : Tds} (k : Connection t) (alloc : ℕ → ℕ) where
  unfoldable pub perform : (request : Request t) → Task (Client k.Conn) (Answer request)
  perform (Request.run_simple_query sql) = simple_query k alloc sql
  perform (Request.run_query sql params) = query k alloc sql params
  perform (Request.run_execute sql params) = execute k sql params
  perform (Request.run_prepare sql params) = prepare k sql params
  perform (Request.run_query_prepared stmt params) = query_prepared k alloc stmt params
  perform (Request.run_execute_prepared stmt params) = execute_prepared k stmt params
  perform (Request.run_unprepare stmt) = unprepare k stmt
  perform (Request.run_reset fresh) = reset_session k fresh
  perform Request.run_ping = ping k

  -- On a client that is known dead every operation fails at once with `ConnectionClosed`, also for
  -- stale statements; neither the connection nor the client changes and no await is used.
  pub perform-dead :
      (request : Request t) (c : Client k.Conn) (n : ℕ)
      → k.is_connection_dead c.inner ≡ true
      → perform request c n ≡ (completed (err closed), c, n)
  unfolding perform simple_query query execute prepare query_prepared execute_prepared unprepare
      reset_session settle_reset ping ensure_usable Operation.ensure_usable
  perform-dead (Request.run_simple_query sql) c n h = on_inner-dead k _ c n h
  perform-dead (Request.run_query sql []) c n h = on_inner-dead k _ c n h
  perform-dead (Request.run_query sql (p ∷ ps)) c n h = on_inner-dead k _ c n h
  perform-dead (Request.run_execute sql params) c n h = on_inner-dead k _ c n h
  perform-dead (Request.run_prepare sql params) c n h = on_inner-dead k _ c n h
  perform-dead (Request.run_query_prepared stmt params) c n h = check_statement-dead k stmt _ c n h
  perform-dead (Request.run_execute_prepared stmt params) c n h =
      check_statement-dead k stmt _ c n h
  perform-dead (Request.run_unprepare stmt) c n h = check_statement-dead k stmt _ c n h
  perform-dead (Request.run_reset fresh) c n h = ground arith
  perform-dead Request.run_ping c n h = ground arith

  -- Whatever the operation, and wherever in it the caller drops the future, the connection that is
  -- left is dead, provided that the driver's `mark_connection_dead` marks the connection.
  pub perform-dropped :
      (request : Request t) (c : Client k.Conn) (n : ℕ)
      → HealthLaws k
      → (perform request c n).0 ≡ dropped
      → k.is_connection_dead (perform request c n).1.inner ≡ true
  unfolding perform simple_query query execute prepare query_prepared execute_prepared unprepare
      reset_session settle_reset ping ensure_usable Operation.ensure_usable
  perform-dropped (Request.run_simple_query sql) c n laws h = on_inner-dropped k _ c n laws h
  perform-dropped (Request.run_query sql []) c n laws h = on_inner-dropped k _ c n laws h
  perform-dropped (Request.run_query sql (p ∷ ps)) c n laws h = on_inner-dropped k _ c n laws h
  perform-dropped (Request.run_execute sql params) c n laws h = on_inner-dropped k _ c n laws h
  perform-dropped (Request.run_prepare sql params) c n laws h = on_inner-dropped k _ c n laws h
  perform-dropped (Request.run_query_prepared stmt params) c n laws h =
      check_statement-dropped k stmt _ c n (on_inner-dropped k _ c n laws) h
  perform-dropped (Request.run_execute_prepared stmt params) c n laws h =
      check_statement-dropped k stmt _ c n (on_inner-dropped k _ c n laws) h
  perform-dropped (Request.run_unprepare stmt) c n laws h =
      check_statement-dropped k stmt _ c n (on_inner-dropped k _ c n laws) h
  perform-dropped (Request.run_reset fresh) c n laws h =
      ground (arith, laws.marked (reset_body k c.inner n).1)
  perform-dropped Request.run_ping c n laws h = ground arith
