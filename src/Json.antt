-- ===== src/Json.antt =====
-- src/query.rs and src/row.rs: the values of serde_json as parameters.
use mssql_tiberius_bridge.Prelude.{Text, Bool, Option, none, some, ℤ}
use mssql_tiberius_bridge.Driver.{Tds, SqlType}

-- `serde_json::Value`; the crate only prints arrays and objects.
pub data JsonValue (Number Compound : Type 0) : Type 0 where
  null : JsonValue Number Compound
  bool : Bool → JsonValue Number Compound
  number : Number → JsonValue Number Compound
  string : Text → JsonValue Number Compound
  compound : Compound → JsonValue Number Compound

-- The crate serde_json.
pub record JsonCrate (t : Tds) : Type 1 where
  pub Number : Type 0
  pub Compound : Type 0
  pub as_i64 : Number → Option ℤ
  pub as_f64 : Number → Option t.Float64
  pub nan : t.Float64
  pub to_string : Compound → Text
  pub from_str : Text → Option (JsonValue Number Compound)

module _ {t : Tds} (j : JsonCrate t) where
  abbrev pub Value : Type 0
  Value = JsonValue j.Number j.Compound

  -- `ToSql for serde_json::Value`.
  unfoldable pub json_to_sql : Value → SqlType t
  json_to_sql JsonValue.null = SqlType.n_varchar none 4000
  json_to_sql (JsonValue.bool value) = SqlType.bit (some value)
  json_to_sql (JsonValue.number n) = elim (j.as_i64 n) [
    | some value ↦ SqlType.big_int (some value)
    | none ↦ elim (j.as_f64 n) [
      | some value ↦ SqlType.float (some value)
      | none ↦ SqlType.float (some j.nan)
    ]
  ]
  json_to_sql (JsonValue.string value) = SqlType.n_varchar (some (t.from_utf8_string value)) 4000
  json_to_sql (JsonValue.compound value) =
      SqlType.n_varchar (some (t.from_utf8_string (j.to_string value))) 4000
