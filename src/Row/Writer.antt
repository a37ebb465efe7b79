-- ===== src/Row/Writer.antt =====
-- src/row.rs, `BridgeRowWriter`: a row built while the driver decodes it from the wire.
pub mod Laws
use mssql_tiberius_bridge.Prelude.{ℕ, Text, Bool, Option, none, some, List, [], ◌∷◌, ◌++◌, ℤ}
use mssql_tiberius_bridge.Driver.{
  Tds, ColumnValues, SqlTime, SqlDateTime, SqlDateTime2, SqlDateTimeOffset, SqlSmallDateTime,
  SqlMoney, SqlSmallMoney,
}
use mssql_tiberius_bridge.Row.Schema.{RowSchema}
use mssql_tiberius_bridge.Row.Cells.{Row, from_parts}

-- One constructor for each `write_*` method of `RowWriter`; the column argument, which the writer
-- ignores, is left out.
pub data Write (t : Tds) : Type 0 where
  write_null : Write t
  write_bool : Bool → Write t
  write_u8 : ℕ → Write t
  write_i16 : ℤ → Write t
  write_i32 : ℤ → Write t
  write_i64 : ℤ → Write t
  write_f32 : t.Float32 → Write t
  write_f64 : t.Float64 → Write t
  write_string : List ℕ → t.EncodingType → Write t
  write_bytes : List ℕ → Write t
  write_decimal : t.DecimalParts → Write t
  write_numeric : t.DecimalParts → Write t
  write_date : t.SqlDate → Write t
  write_time : SqlTime → Write t
  write_datetime : SqlDateTime → Write t
  write_smalldatetime : SqlSmallDateTime → Write t
  write_datetime2 : SqlDateTime2 → Write t
  write_datetimeoffset : SqlDateTimeOffset → Write t
  write_money : SqlMoney → Write t
  write_smallmoney : SqlSmallMoney → Write t
  write_uuid : t.Uuid → Write t
  write_xml : t.SqlXml → Write t
  write_json : t.SqlJson → Write t
  write_vector : t.SqlVector → Write t
  end_row : Write t

pub record BridgeRowWriter (t : Tds) : Type 0 where
  pub schema : RowSchema
  pub result_index : ℕ
  pub values : List (ColumnValues t)
  pub decoded_strings : List (Option Text)

module _ {t : Tds} where
  -- `with_result_index`; the reserved capacity has no counterpart.
  unfoldable pub with_result_index : RowSchema → ℕ → BridgeRowWriter t
  with_result_index schema result_index = record {
    schema = schema;
    result_index = result_index;
    values = [];
    decoded_strings = [];
  }

  -- `take_row`: the row so far, and the writer ready for the next one.
  unfoldable pub take_row : BridgeRowWriter t → Row t × BridgeRowWriter t
  take_row w = (
    from_parts w.schema w.values w.result_index w.decoded_strings,
    record w { values = []; decoded_strings = [] },
  )

  -- `self.values.push(…); self.decoded_strings.push(…)`.
  abbrev push : BridgeRowWriter t → ColumnValues t → Option Text → BridgeRowWriter t
  push w value decoded = record w {
    values = w.values ++ value ∷ [];
    decoded_strings = w.decoded_strings ++ decoded ∷ [];
  }

  -- `impl RowWriter for BridgeRowWriter`.
  pub write : BridgeRowWriter t → Write t → BridgeRowWriter t
  write w Write.write_null = push w ColumnValues.null none
  write w (Write.write_bool val) = push w (ColumnValues.bit val) none
  write w (Write.write_u8 val) = push w (ColumnValues.tiny_int val) none
  write w (Write.write_i16 val) = push w (ColumnValues.small_int val) none
  write w (Write.write_i32 val) = push w (ColumnValues.int val) none
  write w (Write.write_i64 val) = push w (ColumnValues.big_int val) none
  write w (Write.write_f32 val) = push w (ColumnValues.real val) none
  write w (Write.write_f64 val) = push w (ColumnValues.float val) none
  write w (Write.write_string val encoding) =
      let s = t.sql_string_new val encoding in
      push w (ColumnValues.string s) (some (t.to_utf8_string s))
  write w (Write.write_bytes val) = push w (ColumnValues.bytes val) none
  write w (Write.write_decimal val) = push w (ColumnValues.decimal val) none
  write w (Write.write_numeric val) = push w (ColumnValues.numeric val) none
  write w (Write.write_date val) = push w (ColumnValues.date val) none
  write w (Write.write_time val) = push w (ColumnValues.time val) none
  write w (Write.write_datetime val) = push w (ColumnValues.date_time val) none
  write w (Write.write_smalldatetime val) = push w (ColumnValues.small_date_time val) none
  write w (Write.write_datetime2 val) = push w (ColumnValues.date_time2 val) none
  write w (Write.write_datetimeoffset val) = push w (ColumnValues.date_time_offset val) none
  write w (Write.write_money val) = push w (ColumnValues.money val) none
  write w (Write.write_smallmoney val) = push w (ColumnValues.small_money val) none
  write w (Write.write_uuid val) = push w (ColumnValues.uuid val) none
  write w (Write.write_xml val) = push w (ColumnValues.xml val) (some (t.xml_as_string val))
  write w (Write.write_json val) = push w (ColumnValues.json val) (some (t.json_as_string val))
  write w (Write.write_vector val) = push w (ColumnValues.vector val) none
  write w Write.end_row = w

  unfoldable pub write_all : BridgeRowWriter t → List (Write t) → BridgeRowWriter t
  write_all w [] = w
  write_all w (x ∷ xs) = write_all (write w x) xs
