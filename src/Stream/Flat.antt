-- ===== src/Stream/Flat.antt =====
-- src/client.rs `query_streamed`, and src/compat.rs `into_row_stream`: the rows of a query as they
-- arrive, without the metadata. A row stream is the item stream under it, or `none` once it has
-- ended; the caller that collects it is the reference loop `collect_streamed`.
use mssql_tiberius_bridge.Prelude.{ℕ, zero, suc, Text, Option, none, some, List, [], ◌∷◌, ◌++◌}
use mssql_tiberius_bridge.Driver.{Tds, SqlType}
use mssql_tiberius_bridge.Error.{Result, ok, err}
use mssql_tiberius_bridge.Row.Cells.{Row}
use mssql_tiberius_bridge.Task.{Task, dropped, return, ◌>>=◌}
use mssql_tiberius_bridge.Connection.{Connection}
use mssql_tiberius_bridge.Client.{Client}
use mssql_tiberius_bridge.Stream.{QueryItem, QueryStream, poll_next, query_compat, into_results}

module _ {t : Tds} (k : Connection t) (alloc : ℕ → ℕ) where
  -- The generator of `into_row_stream` from its start, or from behind a row, to its next row, its
  -- error or its end, on fuel.
  unfoldable pub next_streamed :
      ℕ → QueryStream t → Task k.Conn (Option (Result (Row t)) × Option (QueryStream t))
  unfolding poll_next
  next_streamed zero stream s n = (dropped, k.interrupted s, n)
  next_streamed (suc fuel) stream s n =
      (poll_next k alloc stream >>= λ (item, stream'). elim item [
        | none ↦ return (ok (none, none))
        | some polled ↦ elim polled [
          | err e ↦ return (ok (some (err e), none))
          | ok i ↦ elim i [
            | QueryItem.row r ↦ return (ok (some (ok r), some stream'))
            | QueryItem.metadata m ↦ λ s' n'. next_streamed fuel stream' s' n'
          ]
        ]
      ])
        s n

  -- A poll of the row stream that is awaited; every item awaits but one that `columns` peeked.
  unfoldable pub poll_streamed :
      Option (QueryStream t) → Task k.Conn (Option (Result (Row t)) × Option (QueryStream t))
  unfolding next_streamed
  poll_streamed none s n = return (ok (none, none)) s n
  poll_streamed (some stream) s n = next_streamed (suc (suc n)) stream s n

  -- A caller that collects the rows up to the end of the stream or its first error, on fuel.
  unfoldable pub collect_streamed :
      ℕ → Option (QueryStream t) → List (Row t) → Task k.Conn (List (Row t))
  unfolding poll_streamed
  collect_streamed zero stream rows s n = (dropped, k.interrupted s, n)
  collect_streamed (suc fuel) stream rows s n =
      (poll_streamed stream >>= λ (item, stream'). elim item [
        | none ↦ return (ok rows)
        | some polled ↦ elim polled [
          | err e ↦ return (err e)
          | ok r ↦ λ s' n'. collect_streamed fuel stream' (rows ++ r ∷ []) s' n'
        ]
      ])
        s n

  -- `QueryStream::into_first_result`.
  unfoldable pub into_first_result : QueryStream t → Task k.Conn (List (Row t))
  unfolding into_results
  into_first_result stream = into_results k alloc stream >>= λ results.
      return (ok (elim results [ [] ↦ [] | set ∷ sets ↦ set ]))

  -- `QueryStream::into_row`.
  unfoldable pub into_row : QueryStream t → Task k.Conn (Option (Row t))
  unfolding into_first_result
  into_row stream = into_first_result stream >>= λ rows.
      return (ok (elim rows [ [] ↦ none | row ∷ rest ↦ some row ]))

module _ {t : Tds} where
  -- `QueryStream::into_row_stream`; nothing runs before the first poll.
  unfoldable pub into_row_stream : QueryStream t → Option (QueryStream t)
  into_row_stream stream = some stream

module _ {t : Tds} (k : Connection t) where
  -- `Client::query_streamed`.
  unfoldable pub query_streamed : Client k.Conn → Text → List (SqlType t) → Option (QueryStream t)
  unfolding query_compat into_row_stream
  query_streamed c sql params = into_row_stream (query_compat k c sql params)

  -- `Client::simple_query_compat`.
  unfoldable pub simple_query_compat : Client k.Conn → Text → QueryStream t
  unfolding query_compat
  simple_query_compat c sql = query_compat k c sql []

  -- `Client::simple_query_streamed`.
  unfoldable pub simple_query_streamed : Client k.Conn → Text → Option (QueryStream t)
  unfolding query_streamed
  simple_query_streamed c sql = query_streamed c sql []
