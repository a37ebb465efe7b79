-- ===== src/FromSql.antt =====
-- src/row.rs, trait `FromSql`: a typed value out of a cell. A value that does not fit is `none`.
pub mod Laws
use mssql_tiberius_bridge.Prelude.{ℕ, Text, Bool, Option, none, some, List, ℤ, pos}
use mssql_tiberius_bridge.Driver.{Tds, ColumnValues}

-- The trait: `from_sql`, and `from_sql_with_str` with the pre-decoded text of the cell.
pub record FromSql (t : Tds) (A : Type 0) : Type 0 where
  pub from_sql : ColumnValues t → Option A
  pub from_sql_with_str : ColumnValues t → Option Text → Option A

-- The default method ignores the pre-decoded text.
abbrev pub by_value : {t : Tds} {A : Type 0} → (ColumnValues t → Option A) → FromSql t A
by_value f = record { from_sql = f; from_sql_with_str = λ v decoded. f v }

module _ {t : Tds} where
  unfoldable pub from_sql_bool : ColumnValues t → Option Bool
  from_sql_bool (ColumnValues.bit b) = some b
  from_sql_bool _ = none

  unfoldable pub from_sql_u8 : ColumnValues t → Option ℕ
  from_sql_u8 (ColumnValues.tiny_int v) = some v
  from_sql_u8 _ = none

  unfoldable pub from_sql_i16 : ColumnValues t → Option ℤ
  from_sql_i16 (ColumnValues.small_int v) = some v
  from_sql_i16 (ColumnValues.tiny_int v) = some (pos v)
  from_sql_i16 _ = none

  unfoldable pub from_sql_i32 : ColumnValues t → Option ℤ
  from_sql_i32 (ColumnValues.int v) = some v
  from_sql_i32 (ColumnValues.small_int v) = some v
  from_sql_i32 (ColumnValues.tiny_int v) = some (pos v)
  from_sql_i32 _ = none

  unfoldable pub from_sql_i64 : ColumnValues t → Option ℤ
  from_sql_i64 (ColumnValues.big_int v) = some v
  from_sql_i64 (ColumnValues.int v) = some v
  from_sql_i64 (ColumnValues.small_int v) = some v
  from_sql_i64 (ColumnValues.tiny_int v) = some (pos v)
  from_sql_i64 _ = none

  unfoldable pub from_sql_f32 : ColumnValues t → Option t.Float32
  from_sql_f32 (ColumnValues.real v) = some v
  from_sql_f32 _ = none

  unfoldable pub from_sql_f64 : ColumnValues t → Option t.Float64
  from_sql_f64 (ColumnValues.float v) = some v
  from_sql_f64 (ColumnValues.real v) = some (t.widen v)
  from_sql_f64 _ = none

  unfoldable pub from_sql_string : ColumnValues t → Option Text
  from_sql_string (ColumnValues.string s) = some (t.to_utf8_string s)
  from_sql_string (ColumnValues.xml x) = some (t.xml_as_string x)
  from_sql_string (ColumnValues.json j) = some (t.json_as_string j)
  from_sql_string _ = none

  unfoldable pub from_sql_uuid : ColumnValues t → Option t.Uuid
  from_sql_uuid (ColumnValues.uuid u) = some u
  from_sql_uuid _ = none

  unfoldable pub from_sql_bytes : ColumnValues t → Option (List ℕ)
  from_sql_bytes (ColumnValues.bytes b) = some b
  from_sql_bytes _ = none

  -- `serde_json::Value`, over the JSON parser's result on a text.
  unfoldable pub from_sql_json {ℓ} : {J : Type ℓ} → (Text → Option J) → ColumnValues t → Option J
  from_sql_json parse (ColumnValues.json j) = parse (t.json_as_string j)
  from_sql_json parse (ColumnValues.string s) = parse (t.to_utf8_string s)
  from_sql_json parse _ = none

  -- `&str` borrows the pre-decoded text and never decodes.
  unfoldable str_impl : FromSql t Text
  str_impl = record { from_sql = λ v. none; from_sql_with_str = λ v decoded. decoded }

  -- `Option<T>`: NULL is `Some(None)`, and a mismatch is `Some(None)` too.
  unfoldable option_from_sql :
      {A : Type 0} → (ColumnValues t → Option A) → ColumnValues t → Option (Option A)
  option_from_sql f ColumnValues.null = some none
  option_from_sql f v = some (f v)

  unfoldable option_impl : {A : Type 0} → FromSql t A → FromSql t (Option A)
  unfolding option_from_sql
  option_impl i = record {
    from_sql = option_from_sql i.from_sql;
    from_sql_with_str = λ v decoded. option_from_sql (λ w. i.from_sql_with_str w decoded) v;
  }
