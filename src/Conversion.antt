-- ===== src/Conversion.antt =====
-- src/compat/conversion.rs: the Tiberius-shaped values and their conversions from and to the
-- driver's parameters and cells. `Cow` is erased: a borrowed and an owned text are the same value.
pub mod Decode
pub mod Dates
pub mod DateTrips
pub mod Crates
pub mod Exact
pub mod JsonTrips
pub mod Laws
use mssql_tiberius_bridge.Prelude.{
  ℕ, Text, str, ◌≡◌, refl, Bool, true, false, Option, none, some, map_option, unwrap_or, List, ℤ,
  ltb, if◌then◌else◌,
}
use mssql_tiberius_bridge.Driver.{
  Tds, ColumnValues, SqlType, SqlTime, SqlDateTime, SqlDateTime2, SqlDateTimeOffset,
  SqlSmallDateTime, SqlMoney, SqlSmallMoney,
}
use mssql_tiberius_bridge.Error.{Error, Result, ok, err}
use mssql_tiberius_bridge.Column.{ColumnType}

pub data ColumnData (t : Tds) : Type 0 where
  bit : Option Bool → ColumnData t
  u8 : Option ℕ → ColumnData t
  i16 : Option ℤ → ColumnData t
  i32 : Option ℤ → ColumnData t
  i64 : Option ℤ → ColumnData t
  f32 : Option t.Float32 → ColumnData t
  f64 : Option t.Float64 → ColumnData t
  string : Option Text → ColumnData t
  guid : Option t.Uuid → ColumnData t
  binary : Option (List ℕ) → ColumnData t
  numeric : Option t.DecimalParts → ColumnData t
  xml : Option Text → ColumnData t
  date_time : Option SqlDateTime → ColumnData t
  small_date_time : Option SqlSmallDateTime → ColumnData t
  time : Option SqlTime → ColumnData t
  date : Option t.SqlDate → ColumnData t
  date_time2 : Option SqlDateTime2 → ColumnData t
  date_time_offset : Option SqlDateTimeOffset → ColumnData t
  money : Option SqlMoney → ColumnData t
  small_money : Option SqlSmallMoney → ColumnData t
  json : Option Text → ColumnData t
  native : SqlType t → ColumnData t

module _ {t : Tds} where
  -- `ColumnData::from_native`.
  pub from_native : SqlType t → ColumnData t
  from_native (SqlType.bit value) = ColumnData.bit value
  from_native (SqlType.tiny_int value) = ColumnData.u8 value
  from_native (SqlType.small_int value) = ColumnData.i16 value
  from_native (SqlType.int value) = ColumnData.i32 value
  from_native (SqlType.big_int value) = ColumnData.i64 value
  from_native (SqlType.real value) = ColumnData.f32 value
  from_native (SqlType.float value) = ColumnData.f64 value
  from_native (SqlType.decimal value) = ColumnData.numeric value
  from_native (SqlType.numeric value) = ColumnData.numeric value
  from_native (SqlType.money value) = ColumnData.money value
  from_native (SqlType.small_money value) = ColumnData.small_money value
  from_native (SqlType.time value) = ColumnData.time value
  from_native (SqlType.date_time2 value) = ColumnData.date_time2 value
  from_native (SqlType.date_time_offset value) = ColumnData.date_time_offset value
  from_native (SqlType.small_date_time value) = ColumnData.small_date_time value
  from_native (SqlType.date_time value) = ColumnData.date_time value
  from_native (SqlType.date value) = ColumnData.date value
  from_native (SqlType.n_varchar value len) = ColumnData.string (map_option t.to_utf8_string value)
  from_native (SqlType.n_varchar_max value) = ColumnData.string (map_option t.to_utf8_string value)
  from_native (SqlType.varchar value len) = ColumnData.string (map_option t.to_utf8_string value)
  from_native (SqlType.varchar_max value) = ColumnData.string (map_option t.to_utf8_string value)
  from_native (SqlType.char value len) = ColumnData.string (map_option t.to_utf8_string value)
  from_native (SqlType.n_char value len) = ColumnData.string (map_option t.to_utf8_string value)
  from_native (SqlType.text value) = ColumnData.string (map_option t.to_utf8_string value)
  from_native (SqlType.n_text value) = ColumnData.string (map_option t.to_utf8_string value)
  from_native (SqlType.var_binary value len) = ColumnData.binary value
  from_native (SqlType.var_binary_max value) = ColumnData.binary value
  from_native (SqlType.binary value len) = ColumnData.binary value
  from_native (SqlType.image value) = ColumnData.binary value
  from_native (SqlType.json value) = ColumnData.json (map_option t.json_as_string value)
  from_native (SqlType.xml value) = ColumnData.xml (map_option t.xml_as_string value)
  from_native (SqlType.uuid value) = ColumnData.guid value
  from_native (SqlType.vector v d b) = ColumnData.native (SqlType.vector v d b)
  from_native (SqlType.variant v) = ColumnData.native (SqlType.variant v)
  from_native (SqlType.table n v) = ColumnData.native (SqlType.table n v)
  from_native (SqlType.udt n v) = ColumnData.native (SqlType.udt n v)

  -- `ColumnData::into_column_value`.
  unfoldable pub into_column_value : ColumnData t → Result (ColumnValues t)
  into_column_value (ColumnData.bit (some value)) = ok (ColumnValues.bit value)
  into_column_value (ColumnData.u8 (some value)) = ok (ColumnValues.tiny_int value)
  into_column_value (ColumnData.i16 (some value)) = ok (ColumnValues.small_int value)
  into_column_value (ColumnData.i32 (some value)) = ok (ColumnValues.int value)
  into_column_value (ColumnData.i64 (some value)) = ok (ColumnValues.big_int value)
  into_column_value (ColumnData.f32 (some value)) = ok (ColumnValues.real value)
  into_column_value (ColumnData.f64 (some value)) = ok (ColumnValues.float value)
  into_column_value (ColumnData.string (some value)) =
      ok (ColumnValues.string (t.from_utf8_string value))
  into_column_value (ColumnData.guid (some value)) = ok (ColumnValues.uuid value)
  into_column_value (ColumnData.binary (some value)) = ok (ColumnValues.bytes value)
  into_column_value (ColumnData.numeric (some value)) = ok (ColumnValues.numeric value)
  into_column_value (ColumnData.xml (some value)) = ok (ColumnValues.xml (t.xml_from value))
  into_column_value (ColumnData.date_time (some value)) = ok (ColumnValues.date_time value)
  into_column_value (ColumnData.small_date_time (some value)) =
      ok (ColumnValues.small_date_time value)
  into_column_value (ColumnData.time (some value)) = ok (ColumnValues.time value)
  into_column_value (ColumnData.date (some value)) = ok (ColumnValues.date value)
  into_column_value (ColumnData.date_time2 (some value)) = ok (ColumnValues.date_time2 value)
  into_column_value (ColumnData.date_time_offset (some value)) =
      ok (ColumnValues.date_time_offset value)
  into_column_value (ColumnData.money (some value)) = ok (ColumnValues.money value)
  into_column_value (ColumnData.small_money (some value)) = ok (ColumnValues.small_money value)
  into_column_value (ColumnData.json (some value)) = ok (ColumnValues.json (t.json_from value))
  into_column_value (ColumnData.native value) =
      err (Error.conversion (str "cannot decode bridge-native parameter as a row value"))
  into_column_value (ColumnData.bit none) = ok ColumnValues.null
  into_column_value (ColumnData.u8 none) = ok ColumnValues.null
  into_column_value (ColumnData.i16 none) = ok ColumnValues.null
  into_column_value (ColumnData.i32 none) = ok ColumnValues.null
  into_column_value (ColumnData.i64 none) = ok ColumnValues.null
  into_column_value (ColumnData.f32 none) = ok ColumnValues.null
  into_column_value (ColumnData.f64 none) = ok ColumnValues.null
  into_column_value (ColumnData.string none) = ok ColumnValues.null
  into_column_value (ColumnData.guid none) = ok ColumnValues.null
  into_column_value (ColumnData.binary none) = ok ColumnValues.null
  into_column_value (ColumnData.numeric none) = ok ColumnValues.null
  into_column_value (ColumnData.xml none) = ok ColumnValues.null
  into_column_value (ColumnData.date_time none) = ok ColumnValues.null
  into_column_value (ColumnData.small_date_time none) = ok ColumnValues.null
  into_column_value (ColumnData.time none) = ok ColumnValues.null
  into_column_value (ColumnData.date none) = ok ColumnValues.null
  into_column_value (ColumnData.date_time2 none) = ok ColumnValues.null
  into_column_value (ColumnData.date_time_offset none) = ok ColumnValues.null
  into_column_value (ColumnData.money none) = ok ColumnValues.null
  into_column_value (ColumnData.small_money none) = ok ColumnValues.null
  into_column_value (ColumnData.json none) = ok ColumnValues.null

  -- `null_column_data`.
  unfoldable null_column_data : ColumnType → ColumnData t
  null_column_data ColumnType.bit = ColumnData.bit none
  null_column_data ColumnType.int1 = ColumnData.u8 none
  null_column_data ColumnType.int2 = ColumnData.i16 none
  null_column_data ColumnType.int4 = ColumnData.i32 none
  null_column_data ColumnType.int8 = ColumnData.i64 none
  null_column_data ColumnType.float4 = ColumnData.f32 none
  null_column_data ColumnType.float8 = ColumnData.f64 none
  null_column_data ColumnType.datetime = ColumnData.date_time none
  null_column_data ColumnType.datetime4 = ColumnData.small_date_time none
  null_column_data ColumnType.datetime2 = ColumnData.date_time2 none
  null_column_data ColumnType.datetime_offset = ColumnData.date_time_offset none
  null_column_data ColumnType.date = ColumnData.date none
  null_column_data ColumnType.time = ColumnData.time none
  null_column_data ColumnType.decimaln = ColumnData.numeric none
  null_column_data ColumnType.numericn = ColumnData.numeric none
  null_column_data ColumnType.money = ColumnData.money none
  null_column_data ColumnType.money4 = ColumnData.small_money none
  null_column_data ColumnType.guid = ColumnData.guid none
  null_column_data ColumnType.xml = ColumnData.xml none
  null_column_data ColumnType.json = ColumnData.json none
  null_column_data ColumnType.n_varchar = ColumnData.string none
  null_column_data ColumnType.varchar = ColumnData.string none
  null_column_data ColumnType.n_char = ColumnData.string none
  null_column_data ColumnType.char = ColumnData.string none
  null_column_data ColumnType.n_text = ColumnData.string none
  null_column_data ColumnType.text = ColumnData.string none
  null_column_data ColumnType.null = ColumnData.string none
  null_column_data ColumnType.binary = ColumnData.binary none
  null_column_data ColumnType.var_binary = ColumnData.binary none
  null_column_data ColumnType.image = ColumnData.binary none
  null_column_data ColumnType.big_var_bin = ColumnData.binary none
  null_column_data ColumnType.ssvariant = ColumnData.binary none
  null_column_data ColumnType.geography = ColumnData.binary none
  null_column_data ColumnType.geometry = ColumnData.binary none
  null_column_data ColumnType.udt = ColumnData.binary none
  null_column_data ColumnType.vector = ColumnData.binary none

  -- `column_data_ref`; the pre-decoded text wins over a fresh decoding.
  pub column_data_ref : ColumnValues t → Option Text → ColumnType → ColumnData t
  unfolding null_column_data
  column_data_ref (ColumnValues.bit value) decoded ty = ColumnData.bit (some value)
  column_data_ref (ColumnValues.tiny_int value) decoded ty = ColumnData.u8 (some value)
  column_data_ref (ColumnValues.small_int value) decoded ty = ColumnData.i16 (some value)
  column_data_ref (ColumnValues.int value) decoded ty = ColumnData.i32 (some value)
  column_data_ref (ColumnValues.big_int value) decoded ty = ColumnData.i64 (some value)
  column_data_ref (ColumnValues.real value) decoded ty = ColumnData.f32 (some value)
  column_data_ref (ColumnValues.float value) decoded ty = ColumnData.f64 (some value)
  column_data_ref (ColumnValues.string value) decoded ty =
      ColumnData.string (some (unwrap_or (t.to_utf8_string value) decoded))
  column_data_ref (ColumnValues.uuid value) decoded ty = ColumnData.guid (some value)
  column_data_ref (ColumnValues.bytes value) decoded ty = ColumnData.binary (some value)
  column_data_ref (ColumnValues.numeric value) decoded ty = ColumnData.numeric (some value)
  column_data_ref (ColumnValues.xml value) decoded ty =
      ColumnData.xml (some (unwrap_or (t.xml_as_string value) decoded))
  column_data_ref (ColumnValues.date_time value) decoded ty = ColumnData.date_time (some value)
  column_data_ref (ColumnValues.small_date_time value) decoded ty =
      ColumnData.small_date_time (some value)
  column_data_ref (ColumnValues.time value) decoded ty = ColumnData.time (some value)
  column_data_ref (ColumnValues.date value) decoded ty = ColumnData.date (some value)
  column_data_ref (ColumnValues.date_time2 value) decoded ty = ColumnData.date_time2 (some value)
  column_data_ref (ColumnValues.date_time_offset value) decoded ty =
      ColumnData.date_time_offset (some value)
  column_data_ref (ColumnValues.money value) decoded ty = ColumnData.money (some value)
  column_data_ref (ColumnValues.small_money value) decoded ty = ColumnData.small_money (some value)
  column_data_ref (ColumnValues.json value) decoded ty =
      ColumnData.json (some (unwrap_or (t.json_as_string value) decoded))
  column_data_ref (ColumnValues.decimal value) decoded ty = ColumnData.numeric (some value)
  column_data_ref ColumnValues.null decoded ty = null_column_data ty
  column_data_ref (ColumnValues.vector value) decoded ty =
      ColumnData.native (SqlType.vector (some value) (t.dimension_count value) (t.base_type value))

  -- A text parameter: `nvarchar(4000)` up to 4000 UTF-16 units, `nvarchar(max)` past that.
  pub string_to_sql : Option Text → SqlType t
  string_to_sql none = SqlType.n_varchar none 4000
  string_to_sql (some value) =
      if ltb 4000 (t.utf16_count value)
      then SqlType.n_varchar_max (some (t.from_utf8_string value))
      else SqlType.n_varchar (some (t.from_utf8_string value)) 4000

  -- `impl NativeToSql for ColumnData`.
  pub to_sql : ColumnData t → SqlType t
  unfolding string_to_sql
  to_sql (ColumnData.bit value) = SqlType.bit value
  to_sql (ColumnData.u8 value) = SqlType.tiny_int value
  to_sql (ColumnData.i16 value) = SqlType.small_int value
  to_sql (ColumnData.i32 value) = SqlType.int value
  to_sql (ColumnData.i64 value) = SqlType.big_int value
  to_sql (ColumnData.f32 value) = SqlType.real value
  to_sql (ColumnData.f64 value) = SqlType.float value
  to_sql (ColumnData.string value) = string_to_sql value
  to_sql (ColumnData.guid value) = SqlType.uuid value
  to_sql (ColumnData.binary value) = SqlType.var_binary_max value
  to_sql (ColumnData.numeric value) = SqlType.numeric value
  to_sql (ColumnData.xml value) = SqlType.xml (map_option t.xml_from value)
  to_sql (ColumnData.date_time value) = SqlType.date_time value
  to_sql (ColumnData.small_date_time value) = SqlType.small_date_time value
  to_sql (ColumnData.time value) = SqlType.time value
  to_sql (ColumnData.date value) = SqlType.date value
  to_sql (ColumnData.date_time2 value) = SqlType.date_time2 value
  to_sql (ColumnData.date_time_offset value) = SqlType.date_time_offset value
  to_sql (ColumnData.money value) = SqlType.money value
  to_sql (ColumnData.small_money value) = SqlType.small_money value
  to_sql (ColumnData.json value) = SqlType.json (map_option t.json_from value)
  to_sql (ColumnData.native value) = value
