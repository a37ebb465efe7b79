-- ===== src/Arrow/Rows.antt =====
-- src/bulk_arrow.rs, `ArrowBulkRow` and `send_arrow_batches`: every row of every batch, in order, into
-- one bulk insert.
use mssql_tiberius_bridge.Prelude.{ℕ, zero, suc, ◌+◌, Text, List, [], ◌∷◌, ◌++◌}
use mssql_tiberius_bridge.Driver.{Tds, ColumnValues}
use mssql_tiberius_bridge.Error.{TdsError, ok, err, display}
use mssql_tiberius_bridge.Task.{Task, TdsResult, tds_ok, tds_err}
use mssql_tiberius_bridge.Connection.{Connection}
use mssql_tiberius_bridge.Bulk.{BulkInsert, send}
use mssql_tiberius_bridge.Payloads.{Payloads}
use mssql_tiberius_bridge.Arrow.{Array}
use mssql_tiberius_bridge.Arrow.Cell.{arrow_value_to_column_value}

-- `RecordBatch`.
pub record RecordBatch (t : Tds) : Type 0 where
  pub columns : List (Array t)
  pub num_rows : ℕ

pub record ArrowBulkRow (t : Tds) : Type 0 where
  pub batch : RecordBatch t
  pub row_idx : ℕ

module _ {t : Tds} (p : Payloads t) (show : TdsError → Text) {W : Type 0}
    (write_column_value : W → ℕ → ColumnValues t → TdsResult (Unit {0}) × W) where
  -- The loop of `write_to_packet`, over the columns that are left.
  unfoldable pub write_columns : List (Array t) → ℕ → W → ℕ → TdsResult (Unit {0}) × W × ℕ
  unfolding arrow_value_to_column_value display
  write_columns [] row_idx writer column_index = (tds_ok tt, writer, column_index)
  write_columns (array ∷ rest) row_idx writer column_index =
      elim (arrow_value_to_column_value p array row_idx) [
        | err e ↦ (tds_err (TdsError.usage_error (display show e)), writer, column_index)
        | ok value ↦
            let (written, writer') = write_column_value writer column_index value in
            let after = write_columns rest row_idx writer' (column_index + 1) in
            elim written [ tds_err e ↦ (tds_err e, writer', column_index) | tds_ok _ ↦ after ]
      ]

  -- `ArrowBulkRow::write_to_packet`.
  unfoldable pub write_to_packet : ArrowBulkRow t → W → ℕ → TdsResult (Unit {0}) × W × ℕ
  unfolding write_columns
  write_to_packet row writer column_index =
      write_columns row.batch.columns row.row_idx writer column_index

module _ {t : Tds} where
  -- The rows of a batch that are left, from an index on.
  unfoldable pub rows_from : RecordBatch t → ℕ → ℕ → List (ArrowBulkRow t)
  rows_from batch row_idx zero = []
  rows_from batch row_idx (suc left) =
      record { batch = batch; row_idx = row_idx } ∷ rows_from batch (suc row_idx) left

  -- The two loops of `send_arrow_batches`.
  unfoldable pub arrow_rows : List (RecordBatch t) → List (ArrowBulkRow t)
  unfolding rows_from
  arrow_rows [] = []
  arrow_rows (batch ∷ batches) = rows_from batch 0 batch.num_rows ++ arrow_rows batches

module _ {t : Tds} (k : Connection t)
    (write_to_server : BulkInsert → List (ArrowBulkRow t) → k.Conn → TdsResult ℕ × k.Conn) where
  -- `BulkInsert::send_arrow_batches`.
  unfoldable pub send_arrow_batches : BulkInsert → List (RecordBatch t) → Task k.Conn ℕ
  unfolding arrow_rows send
  send_arrow_batches bulk batches = send k write_to_server bulk (arrow_rows batches)

  -- `BulkInsert::send_arrow`.
  unfoldable send_arrow : BulkInsert → RecordBatch t → Task k.Conn ℕ
  unfolding send_arrow_batches
  send_arrow bulk batch = send_arrow_batches bulk (batch ∷ [])
