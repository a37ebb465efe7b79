-- ===== src/Tests/Values.antt =====
-- Values and their conversions at concrete data.
use mssql_tiberius_bridge.Prelude.{
  ℕ, ◌≡◌, refl, str, Text, true, Option, none, some, [], ◌∷◌, pos, ◌==◌, if◌then◌else◌,
}
use mssql_tiberius_bridge.Driver.{plain, plain-TextLaws, TdsDataType}
use mssql_tiberius_bridge.Error.{Result, ok}
use mssql_tiberius_bridge.Column.{ColumnMetadata}
use mssql_tiberius_bridge.FromSql.{from_sql_i32}
use mssql_tiberius_bridge.Conversion.{ColumnData, from_native, to_sql, into_column_value}
use mssql_tiberius_bridge.Conversion.Laws.{from_native-to_sql}
use mssql_tiberius_bridge.Conversion.Decode.{
  Target, listed, from_column_data, into_sql, from_column_data-into_sql, from_column_data_sound,
}
use mssql_tiberius_bridge.Json.{JsonCrate, JsonValue, Value}
use mssql_tiberius_bridge.Conversion.Exact.{json_into_sql, json_from_column_data}
use mssql_tiberius_bridge.Conversion.JsonTrips.{refused, json_from_column_data-json_into_sql}
use mssql_tiberius_bridge.Tests.{column}

from_native-to_sql_example :
    from_native (to_sql {t = plain} (ColumnData.string (some (str "text"))))
    ≡ ColumnData.string (some (str "text"))
from_native-to_sql_example =
    from_native-to_sql plain-TextLaws (ColumnData.string (some (str "text"))) tt

from_column_data-into_sql_example :
    from_column_data Target.i16 (into_sql {t = plain} Target.i16 (some (pos 3))) ≡ ok (some (pos 3))
from_column_data-into_sql_example =
    from_column_data-into_sql plain-TextLaws Target.i16 (some (pos 3))

decoded :
    from_column_data {t = plain} Target.i32 (ColumnData.i32 (some (pos 3))) ≡ ok (some (pos 3))
unfolding from_column_data into_column_value from_sql_i32 listed
decoded = refl

from_column_data_sound_example :
    ColumnData.i32 (some (pos 3)) ≡ into_sql {t = plain} Target.i32 (some (pos 3))
from_column_data_sound_example =
    from_column_data_sound plain-TextLaws Target.i32 (ColumnData.i32 (some (pos 3))) (pos 3) decoded

abbrev spatial : ColumnMetadata
spatial = record (column (str "place") TdsDataType.udt) {
  udt_info = some (record { schema_name = str "SYS"; type_name = str "Geography" });
}

-- Arrays and objects by what follows their first bracket; everything else does not parse.
abbrev parse_bracket : Text → Option (JsonValue ℕ Text)
parse_bracket [] = none
parse_bracket (c ∷ rest) = if c == b'[' then some (JsonValue.compound rest) else none

abbrev brackets : JsonCrate plain
brackets = record {
  Number = ℕ;
  Compound = Text;
  as_i64 = λ n. some (pos n);
  as_f64 = λ n. none;
  nan = 0;
  to_string = λ c. b'[' ∷ c;
  from_str = parse_bracket;
}

abbrev read_back : Value brackets → Result (Option (Value brackets))
read_back v = json_from_column_data brackets (json_into_sql brackets (some v))

json_example :
    (read_back (JsonValue.compound (str "1]")) ≡ ok (some (JsonValue.compound (str "1]"))))
    × (read_back JsonValue.null ≡ ok none)
    × (read_back (JsonValue.bool true) ≡ refused brackets)
    × (read_back (JsonValue.number 7) ≡ refused brackets)
    × (read_back (JsonValue.string (str "text")) ≡ refused brackets)
json_example =
    json_from_column_data-json_into_sql brackets (str "1]") true 7 (str "text") plain-TextLaws
