-- ===== src/Conversion/Decode.antt =====
-- src/compat/conversion.rs: typed values out of a `ColumnData` (`FromSql`), and back (`IntoSql`).
use mssql_tiberius_bridge.Prelude.{
  ℕ, Text, str, Bool, true, false, Option, none, some, List, ℤ, if◌then◌else◌, ◌≡◌, refl, arith,
}
use mssql_tiberius_bridge.Driver.{Tds, TextLaws, ColumnValues, SqlType}
use mssql_tiberius_bridge.Query.ToSql.{
  bool_to_sql, u8_to_sql, i16_to_sql, i32_to_sql, i64_to_sql, f32_to_sql, f64_to_sql, uuid_to_sql,
}
use mssql_tiberius_bridge.Error.{Error, Result, ok, err, ◌>>=◌}
use mssql_tiberius_bridge.FromSql.{
  from_sql_bool, from_sql_u8, from_sql_i16, from_sql_i32, from_sql_i64, from_sql_f32, from_sql_f64,
  from_sql_string, from_sql_uuid, from_sql_bytes,
}
use mssql_tiberius_bridge.Conversion.{ColumnData, from_native, into_column_value}

module _ {t : Tds} {A : Type 0} where
  unfoldable pub interpret : (ColumnValues t → Option A) → ColumnValues t → Result (Option A)
  interpret from_sql ColumnValues.null = ok none
  interpret from_sql value = elim (from_sql value) [
    | some a ↦ ok (some a)
    | none ↦ err (Error.conversion (str "cannot interpret value"))
  ]

  -- `decode_owned`, over the native `FromSql` of the target.
  unfoldable pub decode_owned : (ColumnValues t → Option A) → ColumnData t → Result (Option A)
  unfolding interpret
  decode_owned from_sql value = into_column_value value >>= interpret from_sql

  -- `from_column_data_exact!`: only the listed variants are decoded.
  unfoldable pub from_column_data_exact :
      (ColumnData t → Bool) → (ColumnValues t → Option A) → ColumnData t → Result (Option A)
  unfolding decode_owned
  from_column_data_exact listed from_sql value =
      if listed value
      then decode_owned from_sql value
      else err (Error.conversion (str "cannot interpret value"))

-- The scalar targets of the macro's table.
pub data Target : Type 0 where
  bool u8 i16 i32 i64 f32 f64 string uuid bytes : Target

abbrev Rep : Tds → Target → Type 0
Rep t Target.bool = Bool
Rep t Target.u8 = ℕ
Rep t Target.i16 = ℤ
Rep t Target.i32 = ℤ
Rep t Target.i64 = ℤ
Rep t Target.f32 = t.Float32
Rep t Target.f64 = t.Float64
Rep t Target.string = Text
Rep t Target.uuid = t.Uuid
Rep t Target.bytes = List ℕ

module _ {t : Tds} where
  -- The variants that the macro's table lists for each target.
  unfoldable pub listed : Target → ColumnData t → Bool
  listed Target.bool (ColumnData.bit _) = true
  listed Target.u8 (ColumnData.u8 _) = true
  listed Target.u8 (ColumnData.i32 none) = true
  listed Target.i16 (ColumnData.i16 _) = true
  listed Target.i16 (ColumnData.u8 none) = true
  listed Target.i16 (ColumnData.i32 none) = true
  listed Target.i32 (ColumnData.i32 _) = true
  listed Target.i32 (ColumnData.u8 none) = true
  listed Target.i64 (ColumnData.i64 _) = true
  listed Target.i64 (ColumnData.u8 none) = true
  listed Target.i64 (ColumnData.i32 none) = true
  listed Target.f32 (ColumnData.f32 _) = true
  listed Target.f64 (ColumnData.f64 _) = true
  listed Target.string (ColumnData.string _) = true
  listed Target.uuid (ColumnData.guid _) = true
  listed Target.bytes (ColumnData.binary _) = true
  listed _ _ = false

  native_from_sql : (target : Target) → ColumnValues t → Option (Rep t target)
  native_from_sql Target.bool = from_sql_bool
  native_from_sql Target.u8 = from_sql_u8
  native_from_sql Target.i16 = from_sql_i16
  native_from_sql Target.i32 = from_sql_i32
  native_from_sql Target.i64 = from_sql_i64
  native_from_sql Target.f32 = from_sql_f32
  native_from_sql Target.f64 = from_sql_f64
  native_from_sql Target.string = from_sql_string
  native_from_sql Target.uuid = from_sql_uuid
  native_from_sql Target.bytes = from_sql_bytes

  -- `<T as compat::FromSql>::from_sql`.
  unfoldable pub from_column_data :
      (target : Target) → ColumnData t → Result (Option (Rep t target))
  unfolding from_column_data_exact native_from_sql
  from_column_data target value =
      from_column_data_exact (listed target) (native_from_sql target) value

  -- `impl_into_sql_native!`: a value goes through the native parameter.
  unfoldable pub into_sql_native :
      {A : Type 0} → (A → SqlType t) → ColumnData t → Option A → ColumnData t
  into_sql_native to_sql null (some value) = from_native (to_sql value)
  into_sql_native to_sql null none = null

  -- `IntoSql for Option<T>`.
  pub into_sql : (target : Target) → Option (Rep t target) → ColumnData t
  unfolding into_sql_native from_native bool_to_sql u8_to_sql i16_to_sql i32_to_sql i64_to_sql
      f32_to_sql f64_to_sql uuid_to_sql
  into_sql Target.bool value = into_sql_native bool_to_sql (ColumnData.bit none) value
  into_sql Target.u8 value = into_sql_native u8_to_sql (ColumnData.u8 none) value
  into_sql Target.i16 value = into_sql_native i16_to_sql (ColumnData.i16 none) value
  into_sql Target.i32 value = into_sql_native i32_to_sql (ColumnData.i32 none) value
  into_sql Target.i64 value = into_sql_native i64_to_sql (ColumnData.i64 none) value
  into_sql Target.f32 value = into_sql_native f32_to_sql (ColumnData.f32 none) value
  into_sql Target.f64 value = into_sql_native f64_to_sql (ColumnData.f64 none) value
  into_sql Target.string value = ColumnData.string value
  into_sql Target.uuid value = into_sql_native uuid_to_sql (ColumnData.guid none) value
  into_sql Target.bytes value = ColumnData.binary value

module _ {t : Tds} (laws : TextLaws t) where
  -- What `IntoSql` makes of a value, NULL included, `FromSql` turns back into it, for every scalar
  -- target, given that the driver's text payloads decode to the text they were made from.
  pub from_column_data-into_sql :
      (target : Target) (v : Option (Rep t target))
      → from_column_data target (into_sql {t = t} target v) ≡ ok v
  unfolding from_column_data into_sql listed into_column_value from_sql_bool from_sql_u8
      from_sql_i16 from_sql_i32 from_sql_i64 from_sql_f32 from_sql_f64 from_sql_string from_sql_uuid
      from_sql_bytes
  from_column_data-into_sql Target.string (some s) = ground (arith, laws.utf8 s)
  from_column_data-into_sql Target.bool (some s) = refl
  from_column_data-into_sql Target.bool none = refl
  from_column_data-into_sql _ (some s) = refl
  from_column_data-into_sql _ none = refl

  -- The conversion is exact: a value that is not NULL comes only from what `IntoSql` makes of it,
  -- the target's own variant, with no widening, given that the driver's text payloads decode to
  -- the text they were made from.
  pub from_column_data_sound :
      (target : Target) (d : ColumnData t) (v : Rep t target)
      → from_column_data target d ≡ ok (some v)
      → d ≡ into_sql target (some v)
  unfolding from_column_data into_sql listed into_column_value from_sql_bool from_sql_u8
      from_sql_i16 from_sql_i32 from_sql_i64 from_sql_f32 from_sql_f64 from_sql_string from_sql_uuid
      from_sql_bytes
  from_column_data_sound Target.string (ColumnData.string (some s)) v e =
      ground (arith, laws.utf8 s)
  from_column_data_sound Target.bool (ColumnData.bit (some s)) v e = ground arith
  from_column_data_sound _ _ v e = ground arith
