-- ===== src/Tests/Loads.antt =====
-- Bulk loads over prepared answers.
use mssql_tiberius_bridge.Prelude.{
  ℕ, ◌≡◌, refl, str, true, false, none, some, List, [], ◌∷◌, ◌++◌, pos, length, get_elem?,
}
use mssql_tiberius_bridge.Driver.{plain, ColumnValues, SqlType}
use mssql_tiberius_bridge.Error.{Error, err}
use mssql_tiberius_bridge.Conversion.{ColumnData, into_column_value}
use mssql_tiberius_bridge.Task.{TdsResult, tds_ok, dropped, await}
use mssql_tiberius_bridge.Operation.{guarded}
use mssql_tiberius_bridge.Bulk.Build.{
  bulk_insert, bulk_insert_with_columns, bulk_insert_with_columns_lem,
}
use mssql_tiberius_bridge.Bulk.{
  ColumnMapping, BulkInsert, BulkCopyOptions, TokenRow, BulkLoadRequest, len, write_values,
  finalize,
}
use mssql_tiberius_bridge.Bulk.Laws.{
  of_width, send_rows, send_rows_lem, converted, write_cells, write_values_lem, finalize-dropped,
}
use mssql_tiberius_bridge.Tests.{Wire, scripted, scripted-HealthLaws}

abbrev wire : Wire
wire = record { dead = false; sets = []; sent = 0 }

abbrev options : BulkCopyOptions
options = record {
  batch_size = 0;
  check_constraints = false;
  fire_triggers = false;
  keep_identity = false;
  keep_nulls = false;
  table_lock = false;
  use_internal_transaction = false;
  notification_interval = 0;
}

abbrev pair : TokenRow plain
pair = record { values = ColumnData.i32 (some (pos 1)) ∷ ColumnData.i32 none ∷ [] }

abbrev single : TokenRow plain
single = record { values = ColumnData.i32 (some (pos 2)) ∷ [] }

abbrev insert : BulkInsert
insert = record { table_name = str "t"; options = options; timeout = none; column_mappings = [] }

send_rows_example :
    send_rows (record { bulk = insert; rows = []; row_width = none }) (pair ∷ single ∷ pair ∷ [])
    ≡ record {
      bulk = insert;
      rows = pair ∷ of_width (len pair) (single ∷ pair ∷ []);
      row_width = some (len pair);
    }
send_rows_example = send_rows_lem insert pair (single ∷ pair ∷ [])

pair_converted : converted pair.values ≡ some (ColumnValues.int (pos 1) ∷ ColumnValues.null ∷ [])
unfolding into_column_value
pair_converted = refl

abbrev put : List (ℕ × ColumnValues plain) → ℕ → ColumnValues plain → List (ℕ × ColumnValues plain)
put log index v = log ++ (index, v) ∷ []

write_values_example :
    write_values (λ e. []) (λ log index v. (tds_ok tt, put log index v)) pair.values [] 3
    ≡ (tds_ok tt, write_cells put [] 3 (ColumnValues.int (pos 1) ∷ ColumnValues.null ∷ []), 5)
write_values_example =
    write_values_lem (λ e. []) put pair.values (ColumnValues.int (pos 1) ∷ ColumnValues.null ∷ [])
      [] 3 pair_converted

abbrev unsupported : ColumnData plain
unsupported = ColumnData.native (SqlType.bit none)

unsupported_refused :
    into_column_value unsupported
    ≡ err (Error.conversion (str "cannot decode bridge-native parameter as a row value"))
unfolding into_column_value
unsupported_refused = refl

abbrev accept : BulkInsert → List (TokenRow plain) → Wire → TdsResult ℕ × Wire
accept bulk rows s = (tds_ok (length rows), s)

abbrev request : BulkLoadRequest plain
request = record { bulk = insert; rows = pair ∷ []; row_width = some 2 }

load_cut : (finalize scripted accept request wire 0).0 ≡ dropped
unfolding finalize guarded await
load_cut = refl

finalize-dropped_example :
    scripted.is_connection_dead (finalize scripted accept request wire 0).1 ≡ true
finalize-dropped_example =
    finalize-dropped scripted accept request wire 0 scripted-HealthLaws load_cut

bulk_insert_with_columns_example :
    (get_elem?
        ((bulk_insert_with_columns options (str "t") (str "a" ∷ str "b" ∷ [])).column_mappings)
        1
      ≡ some (ColumnMapping.by_ordinal 1 (str "b")))
    × (record (bulk_insert_with_columns options (str "t") (str "a" ∷ str "b" ∷ [])) {
      column_mappings = [];
    }
        ≡ bulk_insert options (str "t"))
bulk_insert_with_columns_example =
    bulk_insert_with_columns_lem options (str "t") (str "a" ∷ str "b" ∷ []) 1
