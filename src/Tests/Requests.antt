-- ===== src/Tests/Requests.antt =====
-- Operations of a client over prepared answers.
use mssql_tiberius_bridge.Prelude.{
  ℕ, ◌≡◌, ◌≢◌, refl, Text, str, true, false, none, some, List, [], ◌∷◌, ◌++◌, pos, arith,
}
use mssql_tiberius_bridge.Driver.{plain, SqlType, TableTypeName}
use mssql_tiberius_bridge.Error.{ok, err, map_result}
use mssql_tiberius_bridge.Operation
use mssql_tiberius_bridge.Operation.{closed, guarded}
use mssql_tiberius_bridge.Task.{completed, dropped, await}
use mssql_tiberius_bridge.Client
use mssql_tiberius_bridge.Client.{
  Client, simple_query, query_prepared, execute_prepared, unprepare, reset_session,
}
use mssql_tiberius_bridge.Client.Safety.{Request, perform, perform-dead, perform-dropped}
use mssql_tiberius_bridge.Client.Session.{run, refused, reset_session-failed, stale_forever}
use mssql_tiberius_bridge.Client.Progress.{perform-completed}
use mssql_tiberius_bridge.Pool.{TdsManager, RecyclingMethod, Recycled, recycle}
use mssql_tiberius_bridge.Pool.Laws.{recycle-refused}
use mssql_tiberius_bridge.Pool.Isolation.{returned, handed_on, recycle-isolates}
use mssql_tiberius_bridge.Prepared
use mssql_tiberius_bridge.Prepared.{
  PreparedStatement, skip_rows, handle_from_return_values, validate_session,
}
use mssql_tiberius_bridge.Prepared.Declaration.{quote_identifier, parameter_declaration, join}
use mssql_tiberius_bridge.Prepared.Laws.{
  read_identifier, read_identifier-quote_identifier, declare_all, parameter_declaration_lem,
}
use mssql_tiberius_bridge.Query.Params.{build_params_with_string_encoding}
use mssql_tiberius_bridge.Tests.{Wire, scripted, scripted-HealthLaws, client, statement}

abbrev alloc : ℕ → ℕ
alloc n = n

abbrev select : Request plain
select = Request.run_simple_query (str "SELECT 1")

-- The second await of the query is the last that completes.
cut_short : (perform scripted alloc select (client false) 1).0 ≡ dropped
unfolding perform simple_query guarded await Operation.settle
cut_short = refl

perform-dropped_example :
    scripted.is_connection_dead (perform scripted alloc select (client false) 1).1.inner ≡ true
perform-dropped_example =
    perform-dropped scripted alloc select (client false) 1 scripted-HealthLaws cut_short

perform-completed_example : (perform scripted alloc select (client false) 1).2 ≡ 0
perform-completed_example = perform-completed scripted alloc select (client false) 1 cut_short

perform-dead_example :
    perform scripted alloc select (client true) 9 ≡ (completed (err closed), client true, 9)
perform-dead_example = perform-dead scripted alloc select (client true) 9 refl

reset_cut_short : (reset_session scripted 6 (client false) 1).0 ≢ completed (ok tt)
unfolding reset_session await Operation.ensure_usable
reset_cut_short e = ground arith

reset_session-failed_example :
    scripted.is_connection_dead (reset_session scripted 6 (client false) 1).1.inner ≡ true
reset_session-failed_example =
    reset_session-failed scripted 6 (client false) 1 scripted-HealthLaws reset_cut_short

abbrev history : List (Request plain × ℕ)
history = (select, 9) ∷ (Request.run_reset 6, 9) ∷ (Request.run_ping, 0) ∷ []

stale_forever_example :
    (query_prepared scripted alloc statement [] (run scripted alloc history (client false)) 9
      ≡ refused scripted (run scripted alloc history (client false)) 9)
    × (execute_prepared scripted statement [] (run scripted alloc history (client false)) 9
        ≡ refused scripted (run scripted alloc history (client false)) 9)
    × (unprepare scripted statement (run scripted alloc history (client false)) 9
        ≡ refused scripted (run scripted alloc history (client false)) 9)
stale_forever_example =
    stale_forever scripted alloc history statement [] (client false) 9
      (tt, ((λ e. omega (arith, e)), (tt, tt))) (λ e. omega (arith, e))

abbrev manager : TdsManager Text
manager = record { config = str "server"; recycling_method = RecyclingMethod.reset }

abbrev pinging : TdsManager Text
pinging = record { config = str "server"; recycling_method = RecyclingMethod.ping }

reset_cut : (recycle scripted manager 6 (client false) 1).0 ≢ Recycled.recycled
unfolding recycle reset_session await Operation.ensure_usable
reset_cut e = ground arith

recycle-refused_example :
    scripted.is_connection_dead (recycle scripted manager 6 (client false) 1).1.inner ≡ true
recycle-refused_example =
    recycle-refused scripted manager 6 (client false) 1 scripted-HealthLaws reset_cut

-- The statement that the client prepares of the text below: it holds the client's session, 5.
abbrev lent : PreparedStatement
lent = record { handle = pos 7; sql = str "SELECT 1"; session = 5 }

prepared_lent :
    (Client.prepare scripted (str "SELECT 1") [] (client false) 9).0 ≡ completed (ok lent)
unfolding Client.prepare Prepared.prepare skip_rows handle_from_return_values parameter_declaration
    guarded await Operation.settle Operation.new Operation.ensure_usable
prepared_lent = refl

-- Its borrower runs a query before the connection is checked out again.
abbrev busy : List (Request plain × ℕ)
busy = (select, 20) ∷ []

checked_out :
    (recycle scripted manager 6
      (returned scripted manager alloc (str "SELECT 1") [] (client false) 9 busy)
      9).0
    ≡ Recycled.recycled
unfolding recycle reset_session run perform simple_query Client.prepare Prepared.prepare skip_rows
    handle_from_return_values parameter_declaration guarded await Operation.settle Operation.new
    Operation.ensure_usable Client.collect_results
checked_out = refl

-- The next borrower's client.
abbrev handed : Client Wire
handed = handed_on scripted manager alloc (str "SELECT 1") [] (client false) 9 busy history 6 9

recycle-isolates_example :
    (validate_session lent
        (Client.prepare scripted (str "SELECT 1") [] (client false) 9).1.prepared_session
      ≡ ok tt)
    × (query_prepared scripted alloc lent [] handed 9 ≡ refused scripted handed 9)
    × (execute_prepared scripted lent [] handed 9 ≡ refused scripted handed 9)
    × (unprepare scripted lent handed 9 ≡ refused scripted handed 9)
recycle-isolates_example =
    recycle-isolates scripted manager alloc (str "SELECT 1") [] (client false) 9 busy history lent
      [] 6 9 9 refl prepared_lent checked_out (λ e. omega (arith, e))
      (tt, ((λ e. omega (arith, e)), (tt, tt)))

quote_identifier_example :
    read_identifier (quote_identifier (str "a]b") ++ str ".c") ≡ some (str "a]b", str ".c")
quote_identifier_example = read_identifier-quote_identifier (str "a]b") (str ".c") refl

abbrev hostile : TableTypeName
hostile = record { schema_name = none; type_name = str "t] READONLY; --" }

parameter_declaration_example :
    parameter_declaration scripted
      (SqlType.int (some (pos 2)) ∷ SqlType.n_varchar none 4000 ∷ [])
      false
    ≡ map_result (join (str ", ")) (
        declare_all scripted (
          build_params_with_string_encoding
            (SqlType.int (some (pos 2)) ∷ SqlType.n_varchar none 4000 ∷ [])
            false))
parameter_declaration_example =
    parameter_declaration_lem scripted
      (SqlType.int (some (pos 2)) ∷ SqlType.n_varchar none 4000 ∷ []) false
