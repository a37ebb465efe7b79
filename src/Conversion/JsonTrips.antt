-- ===== src/Conversion/JsonTrips.antt =====
-- compat/conversion.rs: the values of serde_json that are bound as parameters and read back.
use mssql_tiberius_bridge.Prelude.{◌≡◌, refl, ap, ◌∙◌, str, Text, arith, Bool, Option, none, some}
use mssql_tiberius_bridge.Driver.{Tds, TextLaws}
use mssql_tiberius_bridge.Error.{Error, Result, ok, err}
use mssql_tiberius_bridge.FromSql.{from_sql_json}
use mssql_tiberius_bridge.Json.{JsonCrate, JsonValue, Value, json_to_sql}
use mssql_tiberius_bridge.Conversion.{from_native, into_column_value}
use mssql_tiberius_bridge.Conversion.Decode.{
  interpret, decode_owned, from_column_data_exact, into_sql_native,
}
use mssql_tiberius_bridge.Conversion.Exact.{listed_json, json_into_sql, json_from_column_data}

module _ {t : Tds} (j : JsonCrate t) where
  abbrev pub refused : Result (Option (Value j))
  refused = err (Error.conversion (str "cannot interpret value"))

  abbrev pub parsed : Text → Result (Option (Value j))
  parsed s = elim (j.from_str s) [ some a ↦ ok (some a) | none ↦ refused ]

  -- What is read where a value was bound.
  abbrev read_back : Value j → Result (Option (Value j))
  read_back v = json_from_column_data j (json_into_sql j (some v))

  text_read :
      (s : Text)
      → TextLaws t
      → parsed (t.to_utf8_string (t.from_utf8_string (t.to_utf8_string (t.from_utf8_string s))))
        ≡ parsed s
  text_read s laws = ap parsed (laws.utf8 (t.to_utf8_string (t.from_utf8_string s)) ∙ laws.utf8 s)

  -- What a JSON value that is bound through the compatibility conversions is read back as: an array
  -- or an object as what its printed text parses as, and the JSON null as SQL NULL, which is no JSON
  -- value. A boolean and a number do not come back: reading them is a conversion error, since they
  -- are bound as BIT, BIGINT and FLOAT. A string comes back as what its own text, unquoted, parses
  -- as. A text that does not parse is a conversion error. The driver's text payloads must decode to
  -- the text they were made from.
  pub json_from_column_data-json_into_sql :
      (c : j.Compound) (b : Bool) (n : j.Number) (s : Text)
      → TextLaws t
      → (read_back (JsonValue.compound c) ≡ parsed (j.to_string c))
        × (read_back JsonValue.null ≡ ok none)
        × (read_back (JsonValue.bool b) ≡ refused)
        × (read_back (JsonValue.number n) ≡ refused)
        × (read_back (JsonValue.string s) ≡ parsed s)
  unfolding json_from_column_data json_into_sql json_to_sql from_sql_json listed_json from_native
      into_column_value interpret decode_owned from_column_data_exact into_sql_native
  json_from_column_data-json_into_sql c b n s laws =
      (text_read (j.to_string c) laws, refl, refl, ground arith, text_read s laws)
