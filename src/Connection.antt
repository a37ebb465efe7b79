-- ===== src/Connection.antt =====
-- What the crate relies on of `TdsClient`, the driver's connection: its operations as functions on
-- an abstract state, each with the outcome that it has when it is polled to the end.
use mssql_tiberius_bridge.Prelude.{ℕ, ◌≡◌, Text, Bool, true, Option, List}
use mssql_tiberius_bridge.Driver.{Tds, ColumnValues, SqlType}
use mssql_tiberius_bridge.Column.{ColumnMetadata}
use mssql_tiberius_bridge.Query.Params.{RpcParameter}
use mssql_tiberius_bridge.Row.Writer.{Write}
use mssql_tiberius_bridge.Task.{TdsResult}

pub data StatementResult : Type 0 where
  rows : StatementResult
  no_rows : Option ℕ → StatementResult
  end : StatementResult

pub record Connection (t : Tds) : Type 1 where
  pub Conn : Type 0
  pub is_connection_dead : Conn → Bool
  pub mark_connection_dead : Conn → Conn
  -- What a future that is dropped during I/O leaves behind.
  pub interrupted : Conn → Conn
  pub close_query : Conn → TdsResult (Unit {0}) × Conn
  pub prepare_reset_connection : Conn → Conn
  pub execute : Text → Conn → TdsResult StatementResult × Conn
  pub execute_sp_executesql : Text → List (RpcParameter t) → Conn → TdsResult StatementResult × Conn
  pub execute_stored_procedure :
      Text
      → Option (List (RpcParameter t))
      → Option (List (RpcParameter t))
      → Conn
      → TdsResult StatementResult × Conn
  pub on_rows : Conn → Bool
  pub advance : Conn → TdsResult StatementResult × Conn
  pub advance_to_rows : Conn → TdsResult Bool × Conn
  pub get_metadata : Conn → List ColumnMetadata
  -- Whether there was a row.
  pub next_row : Conn → TdsResult Bool × Conn
  -- The calls that the driver makes of the row writer, or `none` where there is no further row.
  pub next_row_into : Conn → TdsResult (Option (List (Write t))) × Conn
  pub get_return_values : Conn → List (ColumnValues t)
  -- `TdsDataType::from(value).get_meta_type_name()`.
  pub get_meta_type_name : SqlType t → TdsResult Text

-- `mark_connection_dead` does what its name says.
pub record HealthLaws {t : Tds} (k : Connection t) : Type 0 where
  pub marked : (s : k.Conn) → k.is_connection_dead (k.mark_connection_dead s) ≡ true
