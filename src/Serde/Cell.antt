-- ===== src/Serde/Cell.antt =====
-- src/serde_de.rs, `ColumnValueDeserializer`: what a cell shows a visitor, by the hint that it is
-- asked with. A variant is named in the messages without its rendering.
use mssql_tiberius_bridge.Prelude.{
  ◌-◌, ◌^◌, Text, str, Option, none, some, [], ◌∷◌, ◌++◌, ℤ, pos, negsuc, leb_ℤ, ◌&&◌,
  if◌then◌else◌, int_to_decimal, map_option,
}
use mssql_tiberius_bridge.Driver.{Tds, ColumnValues}
use mssql_tiberius_bridge.Error.{Error, Result, ok, err, ok_or, ◌>>=◌}
use mssql_tiberius_bridge.Task.{TdsResult, tds_ok, tds_err}
use mssql_tiberius_bridge.Serde.Visit.{Cell, IntType, Visit}
use mssql_tiberius_bridge.Payloads.{Payloads}
use mssql_tiberius_bridge.Temporal.Chrono.{Chrono}
use mssql_tiberius_bridge.Temporal.FromSql.{
  from_sql_naive_date, from_sql_naive_time, from_sql_naive_date_time, from_sql_date_time_offset,
}

abbrev pub int_min : IntType → ℤ
int_min IntType.i8 = negsuc (2 ^ 7 - 1)
int_min IntType.i16 = negsuc (2 ^ 15 - 1)
int_min IntType.i32 = negsuc (2 ^ 31 - 1)
int_min IntType.i64 = negsuc (2 ^ 63 - 1)
int_min IntType.i128 = negsuc (2 ^ 127 - 1)
int_min _ = pos 0

abbrev pub int_max : IntType → ℤ
int_max IntType.i8 = pos (2 ^ 7 - 1)
int_max IntType.i16 = pos (2 ^ 15 - 1)
int_max IntType.i32 = pos (2 ^ 31 - 1)
int_max IntType.i64 = pos (2 ^ 63 - 1)
int_max IntType.i128 = pos (2 ^ 127 - 1)
int_max IntType.u8 = pos (2 ^ 8 - 1)
int_max IntType.u16 = pos (2 ^ 16 - 1)
int_max IntType.u32 = pos (2 ^ 32 - 1)
int_max IntType.u64 = pos (2 ^ 64 - 1)
int_max IntType.u128 = pos (2 ^ 128 - 1)

abbrev pub int_name : IntType → Text
int_name IntType.i8 = str "i8"
int_name IntType.i16 = str "i16"
int_name IntType.i32 = str "i32"
int_name IntType.i64 = str "i64"
int_name IntType.i128 = str "i128"
int_name IntType.u8 = str "u8"
int_name IntType.u16 = str "u16"
int_name IntType.u32 = str "u32"
int_name IntType.u64 = str "u64"
int_name IntType.u128 = str "u128"

-- `T::try_from(wide)`.
unfoldable pub try_from_wide : IntType → ℤ → Option ℤ
try_from_wide ty wide =
    if leb_ℤ (int_min ty) wide && leb_ℤ wide (int_max ty) then some wide else none

-- How chrono renders what a cell holds.
pub record Formats (c : Chrono) : Type 0 where
  pub format_date : c.NaiveDate → Text
  pub format_time : c.NaiveTime → Text
  pub format_date_time : c.NaiveDateTime → Text
  pub to_rfc3339 : c.DateTime → Text

-- `de::Error::custom`.
abbrev pub custom : Text → Error
custom msg = Error.conversion msg

abbrev pub unsupported_error : Text → Error
unsupported_error target = custom (str "cannot deserialize as " ++ target)

abbrev pub unsupported {ℓ} : {A : Type ℓ} → Text → Result A
unsupported target = err (unsupported_error target)

module _ {t : Tds} where
  -- The normalization to `i128`.
  unfoldable pub wide_of : ColumnValues t → Option ℤ
  wide_of (ColumnValues.tiny_int n) = some (pos n)
  wide_of (ColumnValues.small_int n) = some n
  wide_of (ColumnValues.int n) = some n
  wide_of (ColumnValues.big_int n) = some n
  wide_of (ColumnValues.bit b) = some (if b then pos 1 else pos 0)
  wide_of _ = none

  module _ {V : Type 0} (visitor : Visit t → Result V) where
    -- `visit_int!`.
    unfoldable pub deserialize_int : IntType → Cell t → Result V
    deserialize_int ty cell = do
      wide ← ok_or (wide_of cell.val) (unsupported_error (int_name ty))
      v ← ok_or (try_from_wide ty wide) (
          custom
            (str "value " ++ (int_to_decimal wide ++ (str " out of range for " ++ int_name ty))))
      visitor (Visit.int ty v)

    unfoldable pub deserialize_bool : Cell t → Result V
    deserialize_bool cell = elim cell.val [
      | ColumnValues.bit b ↦ visitor (Visit.bool b)
      | _ ↦ unsupported (str "bool")
    ]

    unfoldable pub deserialize_option : Cell t → Result V
    deserialize_option cell = elim cell.val [
      | ColumnValues.null ↦ visitor Visit.none
      | _ ↦ visitor (Visit.some cell)
    ]

    unfoldable deserialize_unit : Cell t → Result V
    deserialize_unit cell = visitor Visit.unit

    unfoldable deserialize_newtype_struct : Cell t → Result V
    deserialize_newtype_struct cell = visitor (Visit.newtype_struct cell)

    unfoldable deserialize_enum : Cell t → Result V
    deserialize_enum cell = visitor (Visit.enum_access cell)

    unfoldable deserialize_ignored_any : Cell t → Result V
    deserialize_ignored_any cell = visitor Visit.unit

    -- `deserialize_char`: the pre-decoded text has exactly one character.
    unfoldable pub char_visit : Option Text → Result V
    char_visit (some (ch ∷ [])) = visitor (Visit.char ch)
    char_visit (some []) = err (custom (str "cannot deserialize multi-char string as char"))
    char_visit (some (ch ∷ d ∷ rest)) =
        err (custom (str "cannot deserialize multi-char string as char"))
    char_visit none = unsupported (str "char")

    unfoldable deserialize_char : Cell t → Result V
    unfolding char_visit
    deserialize_char cell = char_visit cell.decoded

    -- A cell is neither a sequence nor a map.
    unfoldable deserialize_seq : Cell t → Result V
    deserialize_seq cell = err (custom (str "cannot deserialize a column value as a sequence"))

    unfoldable deserialize_map : Cell t → Result V
    deserialize_map cell = err (custom (str "cannot deserialize a column value as a map"))

    -- The text of a text cell.
    abbrev pub str_visit : Option Text → Result V
    str_visit (some s) = visitor (Visit.borrowed_str s)
    str_visit none = visitor (Visit.borrowed_str [])

-- The variants of an enum by its name in the cell: only unit variants.
unfoldable variant_seed {ℓ} : {t : Tds} {V : Type ℓ} → (Cell t → Result V) → Cell t → Result V
variant_seed seed cell = seed cell

unfoldable unit_variant : Result (Unit {0})
unit_variant = ok tt

unfoldable newtype_variant_seed {ℓ} : {A : Type ℓ} → Result A
newtype_variant_seed = err (custom (str "newtype enum variants are not supported on column values"))

unfoldable tuple_variant {ℓ} : {A : Type ℓ} → Result A
tuple_variant = err (custom (str "tuple enum variants are not supported on column values"))

unfoldable struct_variant {ℓ} : {A : Type ℓ} → Result A
struct_variant = err (custom (str "struct enum variants are not supported on column values"))

module _ {t : Tds} (p : Payloads t) (c : Chrono) (f : Formats c) where
  -- `temporal_string`.
  unfoldable pub temporal_string : ColumnValues t → Option Text
  unfolding from_sql_naive_date from_sql_naive_time from_sql_naive_date_time
      from_sql_date_time_offset
  temporal_string (ColumnValues.date d) =
      map_option f.format_date (from_sql_naive_date p c (ColumnValues.date d))
  temporal_string (ColumnValues.time v) =
      map_option f.format_time (from_sql_naive_time p c (ColumnValues.time v))
  temporal_string (ColumnValues.date_time v) =
      map_option f.format_date_time (from_sql_naive_date_time p c (ColumnValues.date_time v))
  temporal_string (ColumnValues.date_time2 v) =
      map_option f.format_date_time (from_sql_naive_date_time p c (ColumnValues.date_time2 v))
  temporal_string (ColumnValues.small_date_time v) =
      map_option f.format_date_time (from_sql_naive_date_time p c (ColumnValues.small_date_time v))
  temporal_string (ColumnValues.date_time_offset v) =
      map_option f.to_rfc3339 (from_sql_date_time_offset p c (ColumnValues.date_time_offset v))
  temporal_string _ = none

  -- The failure of a money value's decoding, without the driver's rendering.
  unfoldable pub money_float : TdsResult t.Float64 → Result t.Float64
  money_float (tds_ok n) = ok n
  money_float (tds_err e) = err (custom (str "money decode failed"))

  module _ {V : Type 0} (visitor : Visit t → Result V) where
    unfoldable pub temporal_visit : ColumnValues t → Result V
    unfolding temporal_string
    temporal_visit val = do
      s ← ok_or (temporal_string val) (custom (str "invalid temporal value"))
      visitor (Visit.string s)

    -- `visit_float!` at `f32` and at `f64`.
    unfoldable pub deserialize_f32 : Cell t → Result V
    unfolding money_float
    deserialize_f32 cell = elim cell.val [
      | ColumnValues.real n ↦ visitor (Visit.f32 n)
      | ColumnValues.float n ↦ visitor (Visit.f32 (p.narrow n))
      | ColumnValues.tiny_int n ↦ visitor (Visit.f32 (p.float32_of_int (pos n)))
      | ColumnValues.small_int n ↦ visitor (Visit.f32 (p.float32_of_int n))
      | ColumnValues.int n ↦ visitor (Visit.f32 (p.float32_of_int n))
      | ColumnValues.big_int n ↦ visitor (Visit.f32 (p.float32_of_int n))
      | ColumnValues.money m ↦
          money_float (p.money_to_float m) >>= λ n. visitor (Visit.f32 (p.narrow n))
      | ColumnValues.small_money m ↦
          visitor (Visit.f32 (p.narrow (p.small_money_to_float (m.int_val))))
      | _ ↦ unsupported (str "f32")
    ]

    unfoldable pub deserialize_f64 : Cell t → Result V
    unfolding money_float
    deserialize_f64 cell = elim cell.val [
      | ColumnValues.real n ↦ visitor (Visit.f64 (t.widen n))
      | ColumnValues.float n ↦ visitor (Visit.f64 n)
      | ColumnValues.tiny_int n ↦ visitor (Visit.f64 (p.float64_of_int (pos n)))
      | ColumnValues.small_int n ↦ visitor (Visit.f64 (p.float64_of_int n))
      | ColumnValues.int n ↦ visitor (Visit.f64 (p.float64_of_int n))
      | ColumnValues.big_int n ↦ visitor (Visit.f64 (p.float64_of_int n))
      | ColumnValues.money m ↦ money_float (p.money_to_float m) >>= λ n. visitor (Visit.f64 n)
      | ColumnValues.small_money m ↦ visitor (Visit.f64 (p.small_money_to_float (m.int_val)))
      | _ ↦ unsupported (str "f64")
    ]

    -- `deserialize_any`, over the variant and the pre-decoded text.
    unfoldable pub any_visit : ColumnValues t → Option Text → Result V
    unfolding temporal_visit money_float
    any_visit ColumnValues.null decoded = visitor Visit.unit
    any_visit (ColumnValues.bit b) decoded = visitor (Visit.bool b)
    any_visit (ColumnValues.tiny_int v) decoded = visitor (Visit.int IntType.u8 (pos v))
    any_visit (ColumnValues.small_int v) decoded = visitor (Visit.int IntType.i16 v)
    any_visit (ColumnValues.int v) decoded = visitor (Visit.int IntType.i32 v)
    any_visit (ColumnValues.big_int v) decoded = visitor (Visit.int IntType.i64 v)
    any_visit (ColumnValues.real v) decoded = visitor (Visit.f32 v)
    any_visit (ColumnValues.float v) decoded = visitor (Visit.f64 v)
    any_visit (ColumnValues.bytes b) decoded = visitor (Visit.borrowed_bytes b)
    any_visit (ColumnValues.uuid u) decoded = visitor (Visit.string (p.uuid_to_string u))
    any_visit (ColumnValues.string s) decoded = str_visit visitor decoded
    any_visit (ColumnValues.xml s) decoded = str_visit visitor decoded
    any_visit (ColumnValues.json s) decoded = str_visit visitor decoded
    any_visit (ColumnValues.date v) decoded = temporal_visit (ColumnValues.date v)
    any_visit (ColumnValues.time v) decoded = temporal_visit (ColumnValues.time v)
    any_visit (ColumnValues.date_time v) decoded = temporal_visit (ColumnValues.date_time v)
    any_visit (ColumnValues.date_time2 v) decoded = temporal_visit (ColumnValues.date_time2 v)
    any_visit (ColumnValues.small_date_time v) decoded =
        temporal_visit (ColumnValues.small_date_time v)
    any_visit (ColumnValues.date_time_offset v) decoded =
        temporal_visit (ColumnValues.date_time_offset v)
    any_visit (ColumnValues.decimal d) decoded = visitor (Visit.string (p.decimal_to_string d))
    any_visit (ColumnValues.numeric d) decoded = visitor (Visit.string (p.decimal_to_string d))
    any_visit (ColumnValues.money m) decoded =
        money_float (p.money_to_float m) >>= λ n. visitor (Visit.f64 n)
    any_visit (ColumnValues.small_money m) decoded =
        visitor (Visit.f64 (p.small_money_to_float (m.int_val)))
    any_visit (ColumnValues.vector v) decoded =
        err (custom (str "ColumnValues::Vector is not supported by serde Deserialize"))

    unfoldable pub deserialize_any : Cell t → Result V
    unfolding any_visit
    deserialize_any cell = any_visit cell.val cell.decoded

    -- `deserialize_str`, `deserialize_string` and `deserialize_identifier`.
    unfoldable pub text_visit : ColumnValues t → Option Text → Result V
    unfolding temporal_visit
    text_visit (ColumnValues.string s) decoded = str_visit visitor decoded
    text_visit (ColumnValues.xml s) decoded = str_visit visitor decoded
    text_visit (ColumnValues.json s) decoded = str_visit visitor decoded
    text_visit (ColumnValues.uuid u) decoded = visitor (Visit.string (p.uuid_to_string u))
    text_visit (ColumnValues.date v) decoded = temporal_visit (ColumnValues.date v)
    text_visit (ColumnValues.time v) decoded = temporal_visit (ColumnValues.time v)
    text_visit (ColumnValues.date_time v) decoded = temporal_visit (ColumnValues.date_time v)
    text_visit (ColumnValues.date_time2 v) decoded = temporal_visit (ColumnValues.date_time2 v)
    text_visit (ColumnValues.small_date_time v) decoded =
        temporal_visit (ColumnValues.small_date_time v)
    text_visit (ColumnValues.date_time_offset v) decoded =
        temporal_visit (ColumnValues.date_time_offset v)
    text_visit (ColumnValues.decimal d) decoded = visitor (Visit.string (p.decimal_to_string d))
    text_visit (ColumnValues.numeric d) decoded = visitor (Visit.string (p.decimal_to_string d))
    text_visit _ decoded = unsupported (str "&str")

    unfoldable pub deserialize_str : Cell t → Result V
    unfolding text_visit
    deserialize_str cell = text_visit cell.val cell.decoded

    unfoldable pub deserialize_bytes : Cell t → Result V
    deserialize_bytes cell = elim cell.val [
      | ColumnValues.bytes b ↦ visitor (Visit.borrowed_bytes b)
      | ColumnValues.uuid u ↦ visitor (Visit.borrowed_bytes (p.uuid_as_bytes u))
      | _ ↦ unsupported (str "bytes")
    ]

    unfoldable pub deserialize_byte_buf : Cell t → Result V
    deserialize_byte_buf cell = elim cell.val [
      | ColumnValues.bytes b ↦ visitor (Visit.byte_buf b)
      | ColumnValues.uuid u ↦ visitor (Visit.byte_buf (p.uuid_as_bytes u))
      | _ ↦ unsupported (str "byte buf")
    ]
