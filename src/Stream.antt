-- ===== src/Stream.antt =====
-- src/client.rs `query_compat`, and src/compat.rs: the items of a query as they arrive. The generator
-- of `query_compat` is a state machine: a position is where it is suspended, and `resume` runs it to
-- its next item.
pub mod Laws
pub mod Order
pub mod Peek
pub mod Rounds
pub mod Buffered
pub mod Collected
pub mod Costs
pub mod Flat
pub mod Flattened
pub mod Bound
use mssql_tiberius_bridge.Prelude.{
  ℕ, zero, suc, ◌+◌, Text, Bool, true, false, Option, none, some, map_option, List, [], ◌∷◌, ◌++◌,
  is_empty, if◌then◌else◌,
}
use mssql_tiberius_bridge.Driver.{Tds, SqlType}
use mssql_tiberius_bridge.Error.{Error, Result, ok, err}
use mssql_tiberius_bridge.Column.{Column}
use mssql_tiberius_bridge.Query.Params.{RpcParameter}
use mssql_tiberius_bridge.Row.Schema.{RowSchema, from_metadata}
use mssql_tiberius_bridge.Row.Cells.{Row}
use mssql_tiberius_bridge.Row.Writer.{
  Write, BridgeRowWriter, with_result_index, take_row, write_all,
}
use mssql_tiberius_bridge.Task.{Task, Outcome, completed, dropped, return, gets, ◌>>=◌, ◌>>◌}
use mssql_tiberius_bridge.Connection.{Connection, StatementResult}
use mssql_tiberius_bridge.Operation.{guarded}
use mssql_tiberius_bridge.Client.{Client, health, rpc_parameters, call}

pub record ResultMetadata : Type 0 where
  pub schema : RowSchema
  pub result_index : ℕ

-- `ResultMetadata::columns`.
unfoldable metadata_columns : ResultMetadata → List Column
metadata_columns m = m.schema.columns

pub data QueryItem (t : Tds) : Type 0 where
  row : Row t → QueryItem t
  metadata : ResultMetadata → QueryItem t

-- Where the generator is suspended: before its first poll, after an item of the set whose writer and
-- index it holds, or at its end.
pub data Position (t : Tds) : Type 0 where
  start : Text → Option (List (RpcParameter t)) → Position t
  reading : BridgeRowWriter t → ℕ → Position t
  finished : Position t

module _ {t : Tds} (k : Connection t) where
  -- `Client::advance_stream`.
  pub advance_stream : Task k.Conn Bool
  advance_stream = guarded (health k) (call k k.advance_to_rows)

  -- `self.inner.on_rows() || Self::advance_stream(&mut self.inner).await?`.
  pub find_set : Task k.Conn Bool
  unfolding advance_stream
  find_set s n = if k.on_rows s then (completed (ok true), s, n) else advance_stream s n

  pub send_query : Text → Option (List (RpcParameter t)) → Task k.Conn StatementResult
  send_query sql none = call k (k.execute sql)
  send_query sql (some params) = call k (k.execute_sp_executesql sql params)

module _ {t : Tds} (k : Connection t) (alloc : ℕ → ℕ) where
  -- The head of the loop over result sets: it ends the stream, or yields the metadata of the set.
  pub seek : ℕ → Task k.Conn (Option (QueryItem t × Position t))
  unfolding find_set
  seek result_index = find_set k >>= λ here. elim here [
    | false ↦ return (ok none)
    | true ↦ gets k.get_metadata >>= λ columns.
        let schema = from_metadata (alloc result_index) columns in
        return (
          ok (
            some (
              QueryItem.metadata (record { schema = schema; result_index = result_index }),
              Position.reading (with_result_index schema result_index) result_index,
            )))
  ]

  -- After the last row of a set.
  pub next_set : ℕ → Task k.Conn (Option (QueryItem t × Position t))
  unfolding seek advance_stream
  next_set result_index = advance_stream k >>= λ more. elim more [
    | true ↦ seek (result_index + 1)
    | false ↦ return (ok none)
  ]

  -- The generator from where it is suspended to its next item, its end (`none`) or its error.
  unfoldable pub resume : Position t → Task k.Conn (Option (QueryItem t × Position t))
  unfolding seek next_set send_query
  resume (Position.start sql params) =
      guarded (health k) (call k k.close_query >> send_query k sql params) >> seek 0
  resume (Position.reading w result_index) = guarded (health k) (call k k.next_row_into) >>= λ next.
      elim next [
        | some cells ↦ return (
            ok (
              some (
                QueryItem.row (take_row (write_all w cells)).0,
                Position.reading (take_row (write_all w cells)).1 result_index,
              )))
        | none ↦ next_set result_index
      ]
  resume Position.finished = return (ok none)

-- `QueryStream`: the generator, the item that `columns` has looked at, and the current schema.
pub record QueryStream (t : Tds) : Type 0 where
  pub inner : Position t
  pub peeked : Option (Result (QueryItem t))
  pub columns : Option RowSchema

module _ {t : Tds} (k : Connection t) where
  -- `Client::query_compat`; nothing runs before the first poll.
  unfoldable pub query_compat : Client k.Conn → Text → List (SqlType t) → QueryStream t
  query_compat c sql params = record {
    inner = Position.start sql (rpc_parameters k params c.send_string_parameters_as_unicode);
    peeked = none;
    columns = none;
  }

module _ {t : Tds} where
  -- `self.columns` after an item has been seen.
  pub columns_after : Option (Result (QueryItem t)) → Option RowSchema → Option RowSchema
  columns_after (some (ok (QueryItem.metadata m))) columns = some m.schema
  columns_after (some (err e)) columns = none
  columns_after _ columns = columns

  -- `results.push(…)` for a row: into the last set, which is opened where there is none.
  pub push_row : List (List (Row t)) → Row t → List (List (Row t))
  push_row [] r = (r ∷ []) ∷ []
  push_row (set ∷ []) r = (set ++ r ∷ []) ∷ []
  push_row (set ∷ next ∷ sets) r = set ∷ push_row (next ∷ sets) r

module _ {t : Tds} (k : Connection t) (alloc : ℕ → ℕ) where
  -- A poll of the generator that is awaited: its item, and where it is suspended afterwards. The
  -- stream ends after an error.
  unfoldable pub suspend :
      Outcome (Option (QueryItem t × Position t)) × k.Conn × ℕ
      → Outcome (Option (Result (QueryItem t)) × Position t) × k.Conn × ℕ
  suspend (completed (ok none), s, n) = (completed (ok (none, Position.finished)), s, n)
  suspend (completed (ok (some (item, p))), s, n) = (completed (ok (some (ok item), p)), s, n)
  suspend (completed (err e), s, n) = (completed (ok (some (err e), Position.finished)), s, n)
  suspend (dropped, s, n) = (dropped, s, n)

  unfoldable pub poll_inner : Position t → Task k.Conn (Option (Result (QueryItem t)) × Position t)
  unfolding resume suspend
  poll_inner p s n = suspend (resume k alloc p s n)

  -- `QueryStream::poll_next`, awaited.
  unfoldable pub poll_next :
      QueryStream t → Task k.Conn (Option (Result (QueryItem t)) × QueryStream t)
  unfolding poll_inner columns_after
  poll_next stream = elim stream.peeked [
    | some item ↦ return (
        ok (
          some item,
          record {
            inner = stream.inner;
            peeked = none;
            columns = columns_after (some item) stream.columns;
          },
        ))
    | none ↦ poll_inner stream.inner >>= λ (item, p). return (
        ok (item, record { inner = p; peeked = none; columns = columns_after item stream.columns }))
  ]

  -- What `columns` does with the item that it polled.
  unfoldable pub peek :
      QueryStream t
      → Option (Result (QueryItem t)) × Position t
      → Result (Option (List Column)) × QueryStream t
  peek stream (some (ok (QueryItem.metadata m)), p) = (
    ok (some m.schema.columns),
    record { inner = p; peeked = some (ok (QueryItem.metadata m)); columns = some m.schema },
  )
  peek stream (some (ok item), p) = (
    ok (map_option (λ (schema : RowSchema). schema.columns) stream.columns),
    record { inner = p; peeked = some (ok item); columns = stream.columns },
  )
  peek stream (some (err e), p) = (err e, record { inner = p; peeked = none; columns = none })
  peek stream (none, p) = (
    ok (map_option (λ (schema : RowSchema). schema.columns) stream.columns),
    record { inner = p; peeked = none; columns = stream.columns },
  )

  -- `QueryStream::columns`.
  unfoldable pub columns :
      QueryStream t → Task k.Conn (Result (Option (List Column)) × QueryStream t)
  unfolding poll_inner peek
  columns stream = elim stream.peeked [
    | some item ↦
        return
          (ok (ok (map_option (λ (schema : RowSchema). schema.columns) stream.columns), stream))
    | none ↦ poll_inner stream.inner >>= λ polled. return (ok (peek stream polled))
  ]

  -- The loop of `QueryStream::into_results`, on fuel.
  pub collect_items : ℕ → QueryStream t → List (List (Row t)) → Task k.Conn (List (List (Row t)))
  unfolding poll_next push_row
  collect_items zero stream results s n = (dropped, k.interrupted s, n)
  collect_items (suc fuel) stream results s n =
      (poll_next stream >>= λ (item, stream'). elim item [
        | none ↦ return (ok results)
        | some polled ↦ elim polled [
          | err e ↦ return (err e)
          | ok i ↦ elim i [
            | QueryItem.metadata m ↦ λ s' n'. collect_items fuel stream' (results ++ [] ∷ []) s' n'
            | QueryItem.row r ↦ λ s' n'. collect_items fuel stream' (push_row results r) s' n'
          ]
        ]
      ])
        s n

  -- `QueryStream::into_results`; every poll awaits but that of a peeked item and the last.
  pub into_results : QueryStream t → Task k.Conn (List (List (Row t)))
  unfolding collect_items
  into_results stream s n = collect_items (suc (suc n)) stream [] s n
