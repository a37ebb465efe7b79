-- ===== src/Tests/Streams.antt =====
-- A streamed query over prepared answers.
use mssql_tiberius_bridge.Prelude.{
  ℕ, ◌≡◌, refl, sym, ap, ◌∙◌, str, Bool, true, false, Option, none, some, List, [], ◌∷◌, arith,
}
use mssql_tiberius_bridge.Driver.{plain, TdsDataType}
use mssql_tiberius_bridge.Error.{ok}
use mssql_tiberius_bridge.Client
use mssql_tiberius_bridge.Operation.{guarded}
use mssql_tiberius_bridge.Row.Schema.{RowSchema, from_metadata}
use mssql_tiberius_bridge.Row.Writer.{with_result_index}
use mssql_tiberius_bridge.Task.{completed, dropped, await, TdsResult}
use mssql_tiberius_bridge.Stream.{
  QueryItem, Position, QueryStream, resume, query_compat, poll_next, columns, poll_inner, peek,
  suspend, into_results,
}
use mssql_tiberius_bridge.Stream.Laws.{resume-dropped}
use mssql_tiberius_bridge.Stream.Order.{Follows, Yields, resume-Follows}
use mssql_tiberius_bridge.Stream.Peek.{poll_next-columns}
use mssql_tiberius_bridge.Tests.{
  Wire, scripted, scripted-HealthLaws, client, answer, column, next_in,
}
use mssql_tiberius_bridge.Client.{query}
use mssql_tiberius_bridge.Row.Writer.{Write}
use mssql_tiberius_bridge.Connection.{StatementResult}
use mssql_tiberius_bridge.Stream.Rounds.{UsableLaws}
use mssql_tiberius_bridge.Stream.Flat.{collect_streamed, query_streamed}
use mssql_tiberius_bridge.Stream.Flattened.{rows_of, query_streamed-query}
use mssql_tiberius_bridge.Stream.Collected.{sets_of, into_results-query_compat}

abbrev alloc : ℕ → ℕ
alloc n = n

abbrev begin : Position plain
begin = Position.start (str "SELECT 1") none

abbrev fresh_wire : Wire
fresh_wire = record { dead = false; sets = []; sent = 0 }

abbrev dead_wire : Wire
dead_wire = record { dead = true; sets = []; sent = 0 }

abbrev second_set : Position plain
second_set = Position.reading (with_result_index (from_metadata 1 []) 1) 1

stream_cut : (resume scripted alloc begin fresh_wire 1).0 ≡ dropped
unfolding resume guarded await
stream_cut = refl

resume-dropped_example :
    scripted.is_connection_dead (resume scripted alloc begin fresh_wire 1).1 ≡ true
resume-dropped_example =
    resume-dropped scripted scripted-HealthLaws alloc begin fresh_wire 1 stream_cut

resume-Follows_example :
    Yields
      (Follows second_set)
      (resume scripted alloc second_set (record { dead = false; sets = answer; sent = 1 }) 4).0
unfolding with_result_index from_metadata
resume-Follows_example =
    resume-Follows scripted alloc second_set (record { dead = false; sets = answer; sent = 1 }) 4
      refl

abbrev asking : QueryStream plain
asking = query_compat scripted (client false) (str "SELECT 1") []

abbrev first_schema : RowSchema
first_schema = from_metadata 0 (column (str "n") TdsDataType.int4 ∷ [])

abbrev looked_ahead : QueryStream plain
looked_ahead = record {
  inner = Position.reading (with_result_index first_schema 0) 0;
  peeked = some (ok (QueryItem.metadata (record { schema = first_schema; result_index = 0 })));
  columns = some first_schema;
}

abbrev answering : Wire
answering = record { dead = false; sets = answer; sent = 1 }

asked :
    columns scripted alloc asking fresh_wire 9
    ≡ (completed (ok (ok (some first_schema.columns), looked_ahead)), answering, 7)
unfolding columns query_compat poll_inner peek suspend resume guarded await Client.rpc_parameters
asked = refl

poll_next-columns_example :
    poll_next scripted alloc looked_ahead answering 7 ≡ poll_next scripted alloc asking fresh_wire 9
poll_next-columns_example =
    poll_next-columns scripted alloc asking looked_ahead fresh_wire answering 9 7
      (some first_schema.columns) asked

next_in-dead : (s : Wire) → (next_in s).1.dead ≡ s.dead
next_in-dead s = ground arith

scripted-UsableLaws : UsableLaws scripted
scripted-UsableLaws = record {
  closing = λ s s' alive e. sym (ap (λ (r : TdsResult (Unit {0}) × Wire). r.1.dead) e) ∙ alive;
  executing =
      λ sql s r s' alive e. sym (ap (λ (r : TdsResult StatementResult × Wire). r.1.dead) e) ∙ alive;
  executing_rpc = λ sql ps s r s' alive e.
      sym (ap (λ (r : TdsResult StatementResult × Wire). r.1.dead) e) ∙ alive;
  advancing = λ s more s' alive e. sym (ap (λ (r : TdsResult Bool × Wire). r.1.dead) e) ∙ alive;
  reading = λ s next s' alive e.
      sym (ap (λ (r : TdsResult (Option (List (Write plain))) × Wire). r.1.dead) e)
      ∙ next_in-dead s
      ∙ alive;
}

into_results_example : into_results scripted alloc asking fresh_wire 40 ≡ (
  sets_of (query scripted alloc (str "SELECT 1") [] (client false) 40).0,
  (query scripted alloc (str "SELECT 1") [] (client false) 40).1.inner,
  (query scripted alloc (str "SELECT 1") [] (client false) 40).2,
)
into_results_example =
    into_results-query_compat scripted alloc (str "SELECT 1") [] (client false) 40
      scripted-UsableLaws

query_streamed_example :
    collect_streamed scripted alloc 42
      (query_streamed scripted (client false) (str "SELECT 1") [])
      []
      fresh_wire
      40
    ≡ (
      rows_of scripted alloc (query scripted alloc (str "SELECT 1") [] (client false) 40).0,
      (query scripted alloc (str "SELECT 1") [] (client false) 40).1.inner,
      (query scripted alloc (str "SELECT 1") [] (client false) 40).2,
    )
query_streamed_example =
    query_streamed-query scripted alloc (str "SELECT 1") [] (client false) 40 scripted-UsableLaws
