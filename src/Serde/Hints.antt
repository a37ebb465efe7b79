-- ===== src/Serde/Hints.antt =====
-- src/serde_de.rs: a cell shows the same to a visitor without a hint as with the hint of its type, and
-- what the crate's typed access reads.
use mssql_tiberius_bridge.Prelude.{
  ℕ, ◌≡◌, refl, Bool, Text, List, Option, none, some, ℤ, pos, ◌≤ℤ◌, map_option, arith,
}
use mssql_tiberius_bridge.Driver.{
  Tds, ColumnValues, SqlTime, SqlDateTime, SqlDateTime2, SqlDateTimeOffset, SqlSmallDateTime,
  SqlMoney, SqlSmallMoney,
}
use mssql_tiberius_bridge.Error.{Result}
use mssql_tiberius_bridge.Payloads.{Payloads}
use mssql_tiberius_bridge.Temporal.Chrono.{Chrono}
use mssql_tiberius_bridge.FromSql.{from_sql_u8, from_sql_i16, from_sql_i32, from_sql_i64}
use mssql_tiberius_bridge.Serde.Visit.{Cell, IntType, Visit}
use mssql_tiberius_bridge.Serde.Cell.{
  int_min, int_max, wide_of, deserialize_int, deserialize_bool, deserialize_any, deserialize_str,
  deserialize_f32, deserialize_f64, deserialize_bytes, Formats,
}
use mssql_tiberius_bridge.Serde.Laws.{IntCell, wide_of-IntCell, deserialize_int-fits}

-- The hints with which a struct field asks.
pub data Hint : Type 0 where
  bool f32 f64 text bytes : Hint
  int : IntType → Hint

-- A value within the width of its variant.
abbrev Within : IntType → ℤ → Type 0
Within ty z = (int_min ty ≤ℤ z) × (z ≤ℤ int_max ty)

module _ {t : Tds} where
  abbrev pub InWidth : ColumnValues t → Type 0
  InWidth (ColumnValues.tiny_int n) = Within IntType.u8 (pos n)
  InWidth (ColumnValues.small_int z) = Within IntType.i16 z
  InWidth (ColumnValues.int z) = Within IntType.i32 z
  InWidth (ColumnValues.big_int z) = Within IntType.i64 z
  InWidth _ = Unit

  -- The hint that fits a cell that is not NULL and no vector.
  pub data Natural : ColumnValues t → Hint → Type 0 where
    bit : (b : Bool) → Natural (ColumnValues.bit b) Hint.bool
    tiny_int : (n : ℕ) → Natural (ColumnValues.tiny_int n) (Hint.int IntType.u8)
    small_int : (z : ℤ) → Natural (ColumnValues.small_int z) (Hint.int IntType.i16)
    int_cell : (z : ℤ) → Natural (ColumnValues.int z) (Hint.int IntType.i32)
    big_int : (z : ℤ) → Natural (ColumnValues.big_int z) (Hint.int IntType.i64)
    real : (x : t.Float32) → Natural (ColumnValues.real x) Hint.f32
    float : (x : t.Float64) → Natural (ColumnValues.float x) Hint.f64
    money : (m : SqlMoney) → Natural (ColumnValues.money m) Hint.f64
    small_money : (m : SqlSmallMoney) → Natural (ColumnValues.small_money m) Hint.f64
    string : (s : t.SqlString) → Natural (ColumnValues.string s) Hint.text
    xml : (s : t.SqlXml) → Natural (ColumnValues.xml s) Hint.text
    json : (s : t.SqlJson) → Natural (ColumnValues.json s) Hint.text
    uuid : (u : t.Uuid) → Natural (ColumnValues.uuid u) Hint.text
    decimal : (d : t.DecimalParts) → Natural (ColumnValues.decimal d) Hint.text
    numeric : (d : t.DecimalParts) → Natural (ColumnValues.numeric d) Hint.text
    date : (d : t.SqlDate) → Natural (ColumnValues.date d) Hint.text
    time : (v : SqlTime) → Natural (ColumnValues.time v) Hint.text
    date_time : (v : SqlDateTime) → Natural (ColumnValues.date_time v) Hint.text
    date_time2 : (v : SqlDateTime2) → Natural (ColumnValues.date_time2 v) Hint.text
    small_date_time : (v : SqlSmallDateTime) → Natural (ColumnValues.small_date_time v) Hint.text
    date_time_offset : (v : SqlDateTimeOffset) → Natural (ColumnValues.date_time_offset v) Hint.text
    binary : (b : List ℕ) → Natural (ColumnValues.bytes b) Hint.bytes

  -- The typed access of row.rs at an integer type that it has.
  abbrev pub typed_access : IntType → ColumnValues t → Option ℤ
  typed_access IntType.u8 v = map_option pos (from_sql_u8 v)
  typed_access IntType.i16 v = from_sql_i16 v
  typed_access IntType.i32 v = from_sql_i32 v
  typed_access IntType.i64 v = from_sql_i64 v
  typed_access _ v = none

  typed_access-held :
      (ty : IntType) (val : ColumnValues t) (z : ℤ)
      → InWidth val
      → typed_access ty val ≡ some z
      → (wide_of val ≡ some z) × (int_min ty ≤ℤ z) × (z ≤ℤ int_max ty)
  unfolding from_sql_u8 from_sql_i16 from_sql_i32 from_sql_i64 wide_of
  typed_access-held IntType.u8 val z w h = (ground arith, ground arith, ground arith)
  typed_access-held IntType.i16 val z w h = (ground arith, ground arith, ground arith)
  typed_access-held IntType.i32 val z w h = (ground arith, ground arith, ground arith)
  typed_access-held IntType.i64 val z w h = (ground arith, ground arith, ground arith)
  typed_access-held _ val z w h = absurd (ground arith)

  -- What typed access reads of an integer cell within the width of its column, the deserializer shows
  -- at the same type, for each of the integer types that typed access has.
  pub deserialize_int-from_sql :
      {V : Type 0} (visitor : Visit t → Result V) (ty : IntType) (val : ColumnValues t)
      (decoded : Option Text) (z : ℤ)
      → InWidth val
      → typed_access ty val ≡ some z
      → deserialize_int visitor ty (record { val = val; decoded = decoded })
        ≡ visitor (Visit.int ty z)
  deserialize_int-from_sql visitor ty val decoded z width read =
      let (held, low, high) = typed_access-held ty val z width read in
      deserialize_int-fits visitor ty (record { val = val; decoded = decoded }) z
        (wide_of-IntCell val z held) low high

module _ {t : Tds} (p : Payloads t) (c : Chrono) (f : Formats c) where
  -- The methods behind the hints.
  abbrev pub hinted : {V : Type 0} → Hint → (Visit t → Result V) → Cell t → Result V
  hinted Hint.bool visitor cell = deserialize_bool visitor cell
  hinted Hint.f32 visitor cell = deserialize_f32 p c f visitor cell
  hinted Hint.f64 visitor cell = deserialize_f64 p c f visitor cell
  hinted Hint.text visitor cell = deserialize_str p c f visitor cell
  hinted Hint.bytes visitor cell = deserialize_bytes p c f visitor cell
  hinted (Hint.int ty) visitor cell = deserialize_int visitor ty cell

  -- Without a hint a cell shows its visitor the same as with the hint that fits its variant, for every
  -- variant but NULL and the vector, the integers within the width of their columns.
  pub deserialize_any-hinted :
      {V : Type 0} (visitor : Visit t → Result V) (val : ColumnValues t) (decoded : Option Text)
      (hint : Hint)
      → Natural val hint
      → InWidth val
      → hinted hint visitor (record { val = val; decoded = decoded })
        ≡ deserialize_any p c f visitor (record { val = val; decoded = decoded })
  unfolding deserialize_any deserialize_bool deserialize_str deserialize_f32 deserialize_f64
      deserialize_bytes
  deserialize_any-hinted visitor _ decoded _ (bit b) w = refl
  deserialize_any-hinted visitor _ decoded _ (real x) w = refl
  deserialize_any-hinted visitor _ decoded _ (float x) w = refl
  deserialize_any-hinted visitor _ decoded _ (money m) w = refl
  deserialize_any-hinted visitor _ decoded _ (small_money m) w = refl
  deserialize_any-hinted visitor _ decoded _ (string s) w = refl
  deserialize_any-hinted visitor _ decoded _ (xml s) w = refl
  deserialize_any-hinted visitor _ decoded _ (json s) w = refl
  deserialize_any-hinted visitor _ decoded _ (uuid u) w = refl
  deserialize_any-hinted visitor _ decoded _ (decimal d) w = refl
  deserialize_any-hinted visitor _ decoded _ (numeric d) w = refl
  deserialize_any-hinted visitor _ decoded _ (date d) w = refl
  deserialize_any-hinted visitor _ decoded _ (time v) w = refl
  deserialize_any-hinted visitor _ decoded _ (date_time v) w = refl
  deserialize_any-hinted visitor _ decoded _ (date_time2 v) w = refl
  deserialize_any-hinted visitor _ decoded _ (small_date_time v) w = refl
  deserialize_any-hinted visitor _ decoded _ (date_time_offset v) w = refl
  deserialize_any-hinted visitor _ decoded _ (binary b) w = refl
  deserialize_any-hinted visitor _ decoded _ (Natural.tiny_int n) w =
      deserialize_int-fits visitor _ _ _ (IntCell.tiny_cell n) w.0 w.1
  deserialize_any-hinted visitor _ decoded _ (Natural.small_int z) w =
      deserialize_int-fits visitor _ _ _ (IntCell.small_cell z) w.0 w.1
  deserialize_any-hinted visitor _ decoded _ (Natural.int_cell z) w =
      deserialize_int-fits visitor _ _ _ (IntCell.int_cell z) w.0 w.1
  deserialize_any-hinted visitor _ decoded _ (Natural.big_int z) w =
      deserialize_int-fits visitor _ _ _ (IntCell.big_cell z) w.0 w.1
