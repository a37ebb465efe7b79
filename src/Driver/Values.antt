-- ===== src/Driver/Values.antt =====
-- Payload types, `ColumnValues` and `SqlType` of mssql-tds, as row.rs, query.rs and
-- compat/conversion.rs match on them.
use mssql_tiberius_bridge.Prelude.{ℕ, ◌≡◌, refl, Bool, false, Option, List, Text, ℤ, length}

-- Opaque payloads and the conversions that the crate calls.
pub record Tds : Type 1 where
  pub Float32 : Type 0
  pub Float64 : Type 0
  pub SqlString : Type 0
  pub SqlXml : Type 0
  pub SqlJson : Type 0
  pub SqlVector : Type 0
  pub VectorBaseType : Type 0
  pub DecimalParts : Type 0
  pub Uuid : Type 0
  pub SqlDate : Type 0
  pub TableRows : Type 0
  pub UdtBytes : Type 0
  pub EncodingType : Type 0
  -- `SqlString::new` over wire bytes.
  pub sql_string_new : List ℕ → EncodingType → SqlString
  pub from_utf8_string : Text → SqlString
  pub to_utf8_string : SqlString → Text
  pub xml_from : Text → SqlXml
  pub xml_as_string : SqlXml → Text
  pub json_from : Text → SqlJson
  pub json_as_string : SqlJson → Text
  pub dimension_count : SqlVector → ℕ
  pub base_type : SqlVector → VectorBaseType
  -- `VectorBaseType::Float16`, the other base type being `Float32`.
  pub is_float16 : VectorBaseType → Bool
  pub decimal_precision : DecimalParts → ℕ
  pub decimal_scale : DecimalParts → ℕ
  -- `DEFAULT_VARTIME_SCALE`.
  pub default_vartime_scale : ℕ
  -- `f32 as f64`.
  pub widen : Float32 → Float64
  -- `s.encode_utf16().count()`.
  pub utf16_count : Text → ℕ

-- `time_nanoseconds : u64` counts units of 100 ns, whatever its name says.
pub record SqlTime : Type 0 where
  pub time_nanoseconds : ℕ
  pub scale : ℕ

pub record SqlDateTime2 : Type 0 where
  pub days : ℕ
  pub time : SqlTime

pub record SqlDateTimeOffset : Type 0 where
  pub datetime2 : SqlDateTime2
  pub offset : ℤ

pub record SqlDateTime : Type 0 where
  pub days : ℤ
  pub time : ℕ

pub record SqlSmallDateTime : Type 0 where
  pub days : ℕ
  pub time : ℕ

pub record SqlMoney : Type 0 where
  pub lsb_part : ℤ
  pub msb_part : ℤ

pub record SqlSmallMoney : Type 0 where
  pub int_val : ℤ

-- The names of a table type and of a CLR type.
pub record TableTypeName : Type 0 where
  pub schema_name : Option Text
  pub type_name : Text

pub record UdtTypeName : Type 0 where
  pub db_name : Option Text
  pub schema_name : Option Text
  pub type_name : Text

-- A cell as the driver decodes it.
pub data ColumnValues (t : Tds) : Type 0 where
  tiny_int : ℕ → ColumnValues t
  small_int : ℤ → ColumnValues t
  int : ℤ → ColumnValues t
  big_int : ℤ → ColumnValues t
  real : t.Float32 → ColumnValues t
  float : t.Float64 → ColumnValues t
  decimal : t.DecimalParts → ColumnValues t
  numeric : t.DecimalParts → ColumnValues t
  bit : Bool → ColumnValues t
  string : t.SqlString → ColumnValues t
  date_time : SqlDateTime → ColumnValues t
  date : t.SqlDate → ColumnValues t
  time : SqlTime → ColumnValues t
  date_time2 : SqlDateTime2 → ColumnValues t
  date_time_offset : SqlDateTimeOffset → ColumnValues t
  small_date_time : SqlSmallDateTime → ColumnValues t
  small_money : SqlSmallMoney → ColumnValues t
  money : SqlMoney → ColumnValues t
  bytes : List ℕ → ColumnValues t
  xml : t.SqlXml → ColumnValues t
  null : ColumnValues t
  uuid : t.Uuid → ColumnValues t
  json : t.SqlJson → ColumnValues t
  vector : t.SqlVector → ColumnValues t

-- A parameter as the driver encodes it; `none` is a typed SQL NULL.
pub data SqlType (t : Tds) : Type 0 where
  bit : Option Bool → SqlType t
  tiny_int : Option ℕ → SqlType t
  small_int : Option ℤ → SqlType t
  int : Option ℤ → SqlType t
  big_int : Option ℤ → SqlType t
  real : Option t.Float32 → SqlType t
  float : Option t.Float64 → SqlType t
  decimal : Option t.DecimalParts → SqlType t
  numeric : Option t.DecimalParts → SqlType t
  money : Option SqlMoney → SqlType t
  small_money : Option SqlSmallMoney → SqlType t
  time : Option SqlTime → SqlType t
  date_time2 : Option SqlDateTime2 → SqlType t
  date_time_offset : Option SqlDateTimeOffset → SqlType t
  small_date_time : Option SqlSmallDateTime → SqlType t
  date_time : Option SqlDateTime → SqlType t
  date : Option t.SqlDate → SqlType t
  n_varchar : Option t.SqlString → ℕ → SqlType t
  n_varchar_max : Option t.SqlString → SqlType t
  varchar : Option t.SqlString → ℕ → SqlType t
  varchar_max : Option t.SqlString → SqlType t
  var_binary : Option (List ℕ) → ℕ → SqlType t
  var_binary_max : Option (List ℕ) → SqlType t
  binary : Option (List ℕ) → ℕ → SqlType t
  char : Option t.SqlString → ℕ → SqlType t
  n_char : Option t.SqlString → ℕ → SqlType t
  text : Option t.SqlString → SqlType t
  n_text : Option t.SqlString → SqlType t
  image : Option (List ℕ) → SqlType t
  json : Option t.SqlJson → SqlType t
  xml : Option t.SqlXml → SqlType t
  uuid : Option t.Uuid → SqlType t
  vector : Option t.SqlVector → ℕ → t.VectorBaseType → SqlType t
  variant : SqlType t → SqlType t
  table : TableTypeName → Option t.TableRows → SqlType t
  udt : UdtTypeName → Option t.UdtBytes → SqlType t

-- What mssql-tds documents of its text payloads: what was encoded from UTF-8 decodes to it.
pub record TextLaws (t : Tds) : Type 0 where
  pub utf8 : (s : Text) → t.to_utf8_string (t.from_utf8_string s) ≡ s
  pub xml : (s : Text) → t.xml_as_string (t.xml_from s) ≡ s
  pub json : (s : Text) → t.json_as_string (t.json_from s) ≡ s

-- A driver whose payloads are plain data, for tests and instances.
abbrev pub plain : Tds
plain = record {
  Float32 = ℕ;
  Float64 = ℕ;
  SqlString = Text;
  SqlXml = Text;
  SqlJson = Text;
  SqlVector = List ℕ;
  VectorBaseType = Bool;
  DecimalParts = ℕ;
  Uuid = ℕ;
  SqlDate = ℕ;
  TableRows = List ℕ;
  UdtBytes = List ℕ;
  EncodingType = Bool;
  sql_string_new = λ bytes encoding. bytes;
  from_utf8_string = λ s. s;
  to_utf8_string = λ s. s;
  xml_from = λ s. s;
  xml_as_string = λ s. s;
  json_from = λ s. s;
  json_as_string = λ s. s;
  dimension_count = λ v. length v;
  base_type = λ v. false;
  is_float16 = λ b. b;
  decimal_precision = λ d. d;
  decimal_scale = λ d. 0;
  default_vartime_scale = 7;
  widen = λ x. x;
  utf16_count = λ s. length s;
}

pub plain-TextLaws : TextLaws plain
plain-TextLaws = record { utf8 = λ s. refl; xml = λ s. refl; json = λ s. refl }
