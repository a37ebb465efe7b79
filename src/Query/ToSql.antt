-- ===== src/Query/ToSql.antt =====
-- src/query.rs, trait `ToSql`: Rust values as SQL parameters.
use mssql_tiberius_bridge.Prelude.{ℕ, Text, Bool, Option, none, some, List, ℤ}
use mssql_tiberius_bridge.Driver.{Tds, SqlType}

module _ {t : Tds} where
  unfoldable pub bool_to_sql : Bool → SqlType t
  bool_to_sql value = SqlType.bit (some value)

  unfoldable pub u8_to_sql : ℕ → SqlType t
  u8_to_sql value = SqlType.tiny_int (some value)

  unfoldable pub i16_to_sql : ℤ → SqlType t
  i16_to_sql value = SqlType.small_int (some value)

  unfoldable pub i32_to_sql : ℤ → SqlType t
  i32_to_sql value = SqlType.int (some value)

  unfoldable pub i64_to_sql : ℤ → SqlType t
  i64_to_sql value = SqlType.big_int (some value)

  unfoldable pub f32_to_sql : t.Float32 → SqlType t
  f32_to_sql value = SqlType.real (some value)

  unfoldable pub f64_to_sql : t.Float64 → SqlType t
  f64_to_sql value = SqlType.float (some value)

  -- `&str` and `String`.
  unfoldable str_to_sql : Text → SqlType t
  str_to_sql value = SqlType.n_varchar (some (t.from_utf8_string value)) 4000

  unfoldable pub uuid_to_sql : t.Uuid → SqlType t
  uuid_to_sql value = SqlType.uuid (some value)

  -- `Vec<u8>` and `&[u8]`.
  unfoldable bytes_to_sql : List ℕ → SqlType t
  bytes_to_sql value = SqlType.var_binary_max (some value)

  -- `into_typed_null`: the SQL NULL of the same type.
  unfoldable into_typed_null : SqlType t → SqlType t
  into_typed_null (SqlType.bit value) = SqlType.bit none
  into_typed_null (SqlType.tiny_int value) = SqlType.tiny_int none
  into_typed_null (SqlType.small_int value) = SqlType.small_int none
  into_typed_null (SqlType.int value) = SqlType.int none
  into_typed_null (SqlType.big_int value) = SqlType.big_int none
  into_typed_null (SqlType.real value) = SqlType.real none
  into_typed_null (SqlType.float value) = SqlType.float none
  into_typed_null (SqlType.decimal value) = SqlType.decimal none
  into_typed_null (SqlType.numeric value) = SqlType.numeric none
  into_typed_null (SqlType.money value) = SqlType.money none
  into_typed_null (SqlType.small_money value) = SqlType.small_money none
  into_typed_null (SqlType.time value) = SqlType.time none
  into_typed_null (SqlType.date_time2 value) = SqlType.date_time2 none
  into_typed_null (SqlType.date_time_offset value) = SqlType.date_time_offset none
  into_typed_null (SqlType.small_date_time value) = SqlType.small_date_time none
  into_typed_null (SqlType.date_time value) = SqlType.date_time none
  into_typed_null (SqlType.date value) = SqlType.date none
  into_typed_null (SqlType.n_varchar value length) = SqlType.n_varchar none length
  into_typed_null (SqlType.n_varchar_max value) = SqlType.n_varchar_max none
  into_typed_null (SqlType.varchar value length) = SqlType.varchar none length
  into_typed_null (SqlType.varchar_max value) = SqlType.varchar_max none
  into_typed_null (SqlType.var_binary value length) = SqlType.var_binary none length
  into_typed_null (SqlType.var_binary_max value) = SqlType.var_binary_max none
  into_typed_null (SqlType.binary value length) = SqlType.binary none length
  into_typed_null (SqlType.char value length) = SqlType.char none length
  into_typed_null (SqlType.n_char value length) = SqlType.n_char none length
  into_typed_null (SqlType.text value) = SqlType.text none
  into_typed_null (SqlType.n_text value) = SqlType.n_text none
  into_typed_null (SqlType.image value) = SqlType.image none
  into_typed_null (SqlType.json value) = SqlType.json none
  into_typed_null (SqlType.xml value) = SqlType.xml none
  into_typed_null (SqlType.uuid value) = SqlType.uuid none
  into_typed_null (SqlType.vector value dimensions base) = SqlType.vector none dimensions base
  into_typed_null (SqlType.variant inner) = SqlType.variant (into_typed_null inner)
  into_typed_null (SqlType.table name rows) = SqlType.table name none
  into_typed_null (SqlType.udt name bytes) = SqlType.udt name none

  -- `impl ToSql for Option<T>`, over the `to_sql` and the default of `T`.
  unfoldable option_to_sql : {A : Type 0} → (A → SqlType t) → A → Option A → SqlType t
  unfolding into_typed_null
  option_to_sql to_sql default (some v) = to_sql v
  option_to_sql to_sql default none = into_typed_null (to_sql default)
