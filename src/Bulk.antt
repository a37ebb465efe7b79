-- ===== src/Bulk.antt =====
-- src/bulk.rs: bulk inserts. The driver's bulk copy is a parameter: it takes the configuration and the
-- rows, and each row writes its values into the driver's packet writer.
pub mod Build
pub mod Laws
use mssql_tiberius_bridge.Prelude.{
  ℕ, suc, ◌+◌, Text, str, starts_with, any, Bool, true, false, Option, none, some, List, [], ◌∷◌,
  ◌++◌, length, get_elem?, ◌==◌, if◌then◌else◌, to_decimal,
}
use mssql_tiberius_bridge.Driver.{Tds, ColumnValues}
use mssql_tiberius_bridge.Error.{Error, TdsError, Result, ok, err, display}
use mssql_tiberius_bridge.Conversion.{ColumnData, into_column_value}
use mssql_tiberius_bridge.Query.Results.{ExecuteResult}
use mssql_tiberius_bridge.Task.{
  Task, TdsResult, tds_ok, tds_err, Outcome, completed, dropped, await,
}
use mssql_tiberius_bridge.Connection.{Connection}
use mssql_tiberius_bridge.Operation.{guarded}
use mssql_tiberius_bridge.Client.{health, ensure_usable, Client}

-- `BulkCopyOptions` and `ColumnMapping` of the driver.
pub record BulkCopyOptions : Type 0 where
  pub batch_size : ℕ
  pub check_constraints : Bool
  pub fire_triggers : Bool
  pub keep_identity : Bool
  pub keep_nulls : Bool
  pub table_lock : Bool
  pub use_internal_transaction : Bool
  pub notification_interval : ℕ

pub data ColumnMapping : Type 0 where
  by_name : Text → Text → ColumnMapping
  by_ordinal : ℕ → Text → ColumnMapping

-- `BulkInsert`, without the connection that it borrows.
pub record BulkInsert : Type 0 where
  pub table_name : Text
  pub options : BulkCopyOptions
  pub timeout : Option ℕ
  pub column_mappings : List ColumnMapping

-- `BulkInsert::new`, over the driver's default options.
unfoldable pub new : BulkCopyOptions → Text → BulkInsert
new defaults table_name = record {
  table_name = table_name;
  options = defaults;
  timeout = none;
  column_mappings = [];
}

unfoldable pub batch_size : BulkInsert → ℕ → BulkInsert
batch_size bulk n = record bulk { options = record (bulk.options) { batch_size = n } }

unfoldable pub timeout : BulkInsert → ℕ → BulkInsert
timeout bulk t = record bulk { timeout = some t }

unfoldable pub check_constraints : BulkInsert → Bool → BulkInsert
check_constraints bulk enabled = record bulk {
  options = record (bulk.options) { check_constraints = enabled };
}

unfoldable pub fire_triggers : BulkInsert → Bool → BulkInsert
fire_triggers bulk enabled = record bulk {
  options = record (bulk.options) { fire_triggers = enabled };
}

unfoldable pub keep_identity : BulkInsert → Bool → BulkInsert
keep_identity bulk enabled = record bulk {
  options = record (bulk.options) { keep_identity = enabled };
}

unfoldable pub keep_nulls : BulkInsert → Bool → BulkInsert
keep_nulls bulk enabled = record bulk { options = record (bulk.options) { keep_nulls = enabled } }

unfoldable pub table_lock : BulkInsert → Bool → BulkInsert
table_lock bulk enabled = record bulk { options = record (bulk.options) { table_lock = enabled } }

unfoldable pub use_internal_transaction : BulkInsert → Bool → BulkInsert
use_internal_transaction bulk enabled = record bulk {
  options = record (bulk.options) { use_internal_transaction = enabled };
}

unfoldable pub notification_interval : BulkInsert → ℕ → BulkInsert
notification_interval bulk n = record bulk {
  options = record (bulk.options) { notification_interval = n };
}

unfoldable pub add_column_mapping : BulkInsert → ColumnMapping → BulkInsert
add_column_mapping bulk mapping = record bulk {
  column_mappings = bulk.column_mappings ++ mapping ∷ [];
}

unfoldable map_column : BulkInsert → Text → Text → BulkInsert
unfolding add_column_mapping
map_column bulk source_name dest_name =
    add_column_mapping bulk (ColumnMapping.by_name source_name dest_name)

unfoldable pub map_column_by_ordinal : BulkInsert → ℕ → Text → BulkInsert
unfolding add_column_mapping
map_column_by_ordinal bulk source_ord dest_name =
    add_column_mapping bulk (ColumnMapping.by_ordinal source_ord dest_name)

pub record TokenRow (t : Tds) : Type 0 where
  pub values : List (ColumnData t)

module _ {t : Tds} where
  pub len : TokenRow t → ℕ
  len row = length row.values

  unfoldable pub push : TokenRow t → ColumnData t → TokenRow t
  push row value = record { values = row.values ++ value ∷ [] }

  -- `impl BulkLoadRow for TokenRow`: the writer and the column index after the row, over the
  -- writer's own `write_column_value`.
  pub write_values :
      {W : Type 0}
      → (TdsError → Text)
      → (W → ℕ → ColumnValues t → TdsResult (Unit {0}) × W)
      → List (ColumnData t)
      → W
      → ℕ
      → TdsResult (Unit {0}) × W × ℕ
  unfolding into_column_value display
  write_values show write [] writer column_index = (tds_ok tt, writer, column_index)
  write_values show write (value ∷ rest) writer column_index = elim (into_column_value value) [
    | err e ↦ (tds_err (TdsError.usage_error (display show e)), writer, column_index)
    | ok v ↦
        let (written, writer') = write writer column_index v in
        let after = write_values show write rest writer' (column_index + 1) in
        elim written [ tds_err e ↦ (tds_err e, writer', column_index) | tds_ok _ ↦ after ]
  ]

-- `validate_row_width`: the answer, and what is expected from then on.
pub validate_row_width : Option ℕ → ℕ → Result (Unit {0}) × Option ℕ
validate_row_width none actual = (ok tt, some actual)
validate_row_width (some expected) actual = if actual == expected then (ok tt, some expected) else (
  err (
      Error.bulk_input (
        str "Expecting "
        ++ (to_decimal expected
            ++ (str " columns but " ++ (to_decimal actual ++ str " were given"))))),
  some expected,
)

abbrev input_prefixes : List Text
input_prefixes =
    str "Row "
    ∷ str "Column index "
    ∷ str "Binary data length "
    ∷ str "String length "
    ∷ str "SQL_VARIANT data size "
    ∷ str "SQL_VARIANT total size "
    ∷ str "Cannot serialize NULL "
    ∷ str "Unsupported TDS type "
    ∷ str "Invalid UTF-16 data: "
    ∷ str "Conversion error: "
    ∷ []

pub is_bulk_input_message : Text → Bool
unfolding starts_with
is_bulk_input_message message = any (λ prefix. starts_with message prefix) input_prefixes

pub map_compat_bulk_error : Error → Error
unfolding is_bulk_input_message
map_compat_bulk_error (Error.tds (TdsError.usage_error message)) =
    if is_bulk_input_message message
    then Error.bulk_input message
    else Error.tds (TdsError.usage_error message)
map_compat_bulk_error error = error

pub record BulkLoadRequest (t : Tds) : Type 0 where
  pub bulk : BulkInsert
  pub rows : List (TokenRow t)
  pub row_width : Option ℕ

module _ {t : Tds} where
  -- `BulkLoadRequest::send`.
  pub send_row : BulkLoadRequest t → TokenRow t → Result (Unit {0}) × BulkLoadRequest t
  unfolding validate_row_width len
  send_row request row =
      let (answer, width) = validate_row_width request.row_width (len row) in
      elim answer [
        | ok _ ↦ (ok tt, record request { rows = request.rows ++ row ∷ []; row_width = width })
        | err e ↦ (err e, record request { row_width = width })
      ]

-- `.map_err(map_compat_bulk_error)`, and the count as a result.
pub load_result : Outcome ℕ → Outcome ExecuteResult
unfolding map_compat_bulk_error
load_result (completed (ok rows_affected)) = completed (ok (record { counts = rows_affected ∷ [] }))
load_result (completed (err e)) = completed (err (map_compat_bulk_error e))
load_result dropped = dropped

module _ {t : Tds} (k : Connection t) where
  -- `IntoFuture for BulkInsert`.
  unfoldable into_future : BulkInsert → Client k.Conn → Result (BulkLoadRequest t)
  unfolding ensure_usable
  into_future bulk c = elim (ensure_usable k c) [
    | ok _ ↦ ok (record { bulk = bulk; rows = []; row_width = none })
    | err e ↦ err e
  ]

  -- The driver's bulk copy: what it is configured with, the rows, and its count of rows.
  module _ {R : Type 0}
      (write_to_server : BulkInsert → List R → k.Conn → TdsResult ℕ × k.Conn) where
    -- `BulkInsert::send`.
    unfoldable pub send : BulkInsert → List R → Task k.Conn ℕ
    send bulk rows = guarded (health k) (await k.interrupted (write_to_server bulk rows))

  module _ (write_to_server : BulkInsert → List (TokenRow t) → k.Conn → TdsResult ℕ × k.Conn) where
    -- `BulkLoadRequest::finalize`.
    unfoldable pub finalize : BulkLoadRequest t → Task k.Conn ExecuteResult
    unfolding send load_result
    finalize request s n =
        let (outcome, s', n') = send write_to_server request.bulk request.rows s n in
        (load_result outcome, s', n')
