-- ===== src/Tests/Fields.antt =====
-- The serde deserializer and the connection settings at concrete data.
use mssql_tiberius_bridge.Prelude.{
  Text, ◌≡◌, ◌↔◌, refl, str, none, some, [], ◌∷◌, length, ℤ, pos, ◌≤ℤ◌, arith, to_decimal, ℕ,
  negsuc, int_to_decimal,
}
use mssql_tiberius_bridge.Driver.{plain, ColumnValues, TdsDataType}
use mssql_tiberius_bridge.Error.{Result, ok}
use mssql_tiberius_bridge.Payloads.{plain_payloads}
use mssql_tiberius_bridge.Decimal.{DecimalCrate, from_sql_decimal}
use mssql_tiberius_bridge.Decimal.Laws.{words_of, from_sql_decimal-money}
use mssql_tiberius_bridge.Temporal.Chrono.{plain_chrono}
use mssql_tiberius_bridge.Row.Schema.{RowSchema, from_metadata}
use mssql_tiberius_bridge.Row.Cells.{from_schema}
use mssql_tiberius_bridge.Serde.Visit.{Cell, IntType, Visit}
use mssql_tiberius_bridge.Serde.Cell.{int_min, int_max, Formats, deserialize_int, deserialize_any}
use mssql_tiberius_bridge.Serde.Laws.{IntCell, deserialize_int_lem}
use mssql_tiberius_bridge.Serde.Hints.{
  Natural, Hint, hinted, deserialize_int-from_sql, deserialize_any-hinted,
}
use mssql_tiberius_bridge.Serde.Entries.{collect_map, entries, collect_map_lem}
use mssql_tiberius_bridge.FromSql.{from_sql_i64}
use mssql_tiberius_bridge.Config.{Config, Transport, datasource_string, new}
use mssql_tiberius_bridge.Config.Datasource.{
  PipeServer, read_datasource, endpoint, read_datasource-datasource_string,
}
use mssql_tiberius_bridge.Tests.{column}

-- A visitor that keeps what it is shown.
abbrev keep : Visit plain → Result (Visit plain)
keep v = ok v

abbrev cell : Cell plain
cell = record { val = ColumnValues.int (pos 300); decoded = none }

deserialize_int_example :
    (deserialize_int keep IntType.u8 cell ≡ ok (Visit.int IntType.u8 (pos 44))) ↔ (
      (z : ℤ) × IntCell {t = plain} (ColumnValues.int (pos 300)) z
      × (int_min IntType.u8 ≤ℤ z)
      × (z ≤ℤ int_max IntType.u8)
      × (keep (Visit.int IntType.u8 z) ≡ ok (Visit.int IntType.u8 (pos 44))))
deserialize_int_example = deserialize_int_lem keep IntType.u8 cell (Visit.int IntType.u8 (pos 44))

read_wide : from_sql_i64 {t = plain} (ColumnValues.int (pos 300)) ≡ some (pos 300)
unfolding from_sql_i64
read_wide = refl

deserialize_int-from_sql_example :
    deserialize_int keep IntType.i64 cell ≡ ok (Visit.int IntType.i64 (pos 300))
deserialize_int-from_sql_example =
    deserialize_int-from_sql keep IntType.i64 (ColumnValues.int (pos 300)) none (pos 300)
      (omega arith) read_wide

abbrev plain_formats : Formats plain_chrono
plain_formats = record {
  format_date = λ d. str "date";
  format_time = λ v. to_decimal v.secs;
  format_date_time = λ dt. to_decimal dt.1.secs;
  to_rfc3339 = λ dt. to_decimal dt.0.1.secs;
}

deserialize_any-hinted_example :
    hinted plain_payloads plain_chrono plain_formats (Hint.int IntType.i32) keep cell
    ≡ deserialize_any plain_payloads plain_chrono plain_formats keep cell
deserialize_any-hinted_example =
    deserialize_any-hinted plain_payloads plain_chrono plain_formats keep
      (ColumnValues.int (pos 300)) none (Hint.int IntType.i32) (Natural.int_cell (pos 300))
      (omega arith)

abbrev schema : RowSchema
schema = from_metadata 1 (column (str "id") TdsDataType.int4 ∷ [])

-- A row with one cell more than it has columns.
collect_map_example :
    collect_map {t = plain}
      (λ c. ok c)
      3
      (record {
        row = from_schema schema (ColumnValues.int (pos 1) ∷ ColumnValues.null ∷ []);
        idx = 0;
      })
    ≡ entries {t = plain}
        (λ c. ok c)
        (length (schema.columns))
        (schema.columns)
        (ColumnValues.int (pos 1) ∷ ColumnValues.null ∷ [])
collect_map_example =
    collect_map_lem (λ c. ok c) schema (ColumnValues.int (pos 1) ∷ ColumnValues.null ∷ [])

abbrev settings : Config (Unit {0})
settings = record new {
  host = str "db";
  port = 1500;
  instance_name = some (str "X");
  transport = Transport.named_pipe none;
}

read_datasource_example :
    (server : Text) × PipeServer settings.host server
    × (read_datasource (datasource_string settings)
        ≡ some
            (endpoint settings.transport settings.host server settings.port settings.instance_name))
read_datasource_example = read_datasource-datasource_string settings (omega arith)

-- Decimals as pairs of a mantissa and a scale.
abbrev tenths : DecimalCrate
tenths = record {
  Decimal = ℤ × ℕ;
  new = λ mantissa scale. (mantissa, scale);
  to_string = λ d. int_to_decimal d.0;
  parse = λ s. none;
  mantissa = λ d. d.0;
  scale = λ d. d.1;
}

-- -1 is the words -1 and -1.
from_sql_decimal-money_example :
    from_sql_decimal plain_payloads tenths (ColumnValues.money (words_of (negsuc 0)))
    ≡ some (negsuc 0, 4)
from_sql_decimal-money_example = from_sql_decimal-money plain_payloads tenths (negsuc 0) refl
