-- ===== src/Tests/Batches.antt =====
-- Arrow batches at concrete arrays.
use mssql_tiberius_bridge.Prelude.{
  ◌+◌, ◌*◌, ◌≡◌, refl, true, false, none, some, pos, negsuc, arith, ◌==◌,
}
use mssql_tiberius_bridge.Driver.{plain, ColumnValues}
use mssql_tiberius_bridge.Error.{ok}
use mssql_tiberius_bridge.Payloads.{plain_payloads}
use mssql_tiberius_bridge.Temporal.Chrono.{TimeOfDay, plain_chrono, plain-ChronoLaws}
use mssql_tiberius_bridge.Temporal.FromSql.{from_sql_naive_time}
use mssql_tiberius_bridge.Arrow.{Array, ArrayValues, DataType, TimeUnit}
use mssql_tiberius_bridge.Arrow.Cell.{arrow_value_to_column_value}
use mssql_tiberius_bridge.Arrow.Decimal.{
  format_decimal128, read_decimal, read_decimal-format_decimal128,
}
use mssql_tiberius_bridge.Arrow.Blank.{IsBlank, arrow_value_to_column_value-blank}
use mssql_tiberius_bridge.Arrow.Laws.{time_cell, arrow_value_to_column_value-time64}

read_decimal-format_decimal128_example :
    read_decimal (format_decimal128 (negsuc 4) (pos 3)) ≡ (negsuc 4, 3)
read_decimal-format_decimal128_example = read_decimal-format_decimal128 (negsuc 4) 3

-- A second before 1970, as the second of two cells, of which the first is null.
abbrev seconds : Array plain
seconds = record {
  data_type = DataType.timestamp TimeUnit.second none;
  len = 2;
  is_null = λ i. i == 0;
  values = ArrayValues.timestamp TimeUnit.second (λ i. negsuc 0);
}

-- A minute after midnight.
abbrev times : Array plain
times = record {
  data_type = DataType.time64 TimeUnit.nanosecond;
  len = 1;
  is_null = λ i. false;
  values = ArrayValues.time64 TimeUnit.nanosecond (λ i. pos 60000000000);
}

-- The time that the crate reads of it.
read_back :
    (w : TimeOfDay) × (from_sql_naive_time plain_payloads plain_chrono
        (ColumnValues.time (time_cell plain 60000000000))
      ≡ some w)
unfolding from_sql_naive_time
read_back = plain-ChronoLaws.time_total 6000 0 (omega arith) (omega arith)

arrow_value_to_column_value-time64_example :
    (arrow_value_to_column_value plain_payloads times 0
      ≡ ok (ColumnValues.time (time_cell plain 60000000000)))
    × (read_back.0.secs * 1000000000 + read_back.0.nanos ≡ 60000000000 * 100)
arrow_value_to_column_value-time64_example =
    arrow_value_to_column_value-time64 plain_payloads times 0 plain_chrono (λ i. pos 60000000000)
      60000000000 read_back.0 plain-ChronoLaws refl refl (omega arith) refl refl (omega arith)
      read_back.1

-- A null, and a zero that is there.
abbrev absent : Array plain
absent = record {
  data_type = DataType.int32;
  len = 1;
  is_null = λ i. true;
  values = ArrayValues.int32 (λ i. pos 41);
}

abbrev zero : Array plain
zero = record {
  data_type = DataType.int32;
  len = 1;
  is_null = λ i. false;
  values = ArrayValues.int32 (λ i. pos 0);
}

arrow_value_to_column_value-blank_example :
    (arrow_value_to_column_value plain_payloads absent 0 ≡ ok (ColumnValues.int (pos 0)))
    × (arrow_value_to_column_value plain_payloads zero 0 ≡ ok (ColumnValues.int (pos 0)))
arrow_value_to_column_value-blank_example =
    arrow_value_to_column_value-blank plain_payloads 0 absent zero DataType.int32
      (ArrayValues.int32 (λ i. pos 0)) (ColumnValues.int (pos 0)) refl (omega arith) refl refl refl
      (omega arith) refl (IsBlank.int32 (λ i. pos 0) refl)
