-- ===== src/Conversion/Exact.antt =====
-- src/compat/conversion.rs: the sources and targets that are wrapped and taken as they are, and those
-- of the crates rust_decimal and serde_json.
use mssql_tiberius_bridge.Prelude.{ℕ, Text, str, Bool, true, false, Option, none, some, List}
use mssql_tiberius_bridge.Driver.{Tds}
use mssql_tiberius_bridge.Error.{Error, Result, ok, err}
use mssql_tiberius_bridge.Payloads.{Payloads}
use mssql_tiberius_bridge.FromSql.{from_sql_json}
use mssql_tiberius_bridge.Decimal.{DecimalCrate, decimal_to_sql, from_sql_decimal}
use mssql_tiberius_bridge.Json.{JsonCrate, Value, json_to_sql}
use mssql_tiberius_bridge.Conversion.{ColumnData}
use mssql_tiberius_bridge.Conversion.Decode.{into_sql_native, from_column_data_exact}

-- The borrowed texts and bytes, and the driver's decimals.
pub data Payload : Type 0 where
  text bytes uuid decimal_parts : Payload

abbrev pub PayloadRep : Tds → Payload → Type 0
PayloadRep t Payload.text = Text
PayloadRep t Payload.bytes = List ℕ
PayloadRep t Payload.uuid = t.Uuid
PayloadRep t Payload.decimal_parts = t.DecimalParts

module _ {t : Tds} where
  -- `IntoSql` of `&str`, `&String` and `Cow<str>`, of `&[u8]`, `&Vec<u8>` and `Cow<[u8]>`, of `&Uuid`
  -- and of `DecimalParts`, each as an `Option`; the plain value is `some`.
  unfoldable pub payload_into_sql :
      (payload : Payload) → Option (PayloadRep t payload) → ColumnData t
  payload_into_sql Payload.text value = ColumnData.string value
  payload_into_sql Payload.bytes value = ColumnData.binary value
  payload_into_sql Payload.uuid value = ColumnData.guid value
  payload_into_sql Payload.decimal_parts value = ColumnData.numeric value

  -- `FromColumnData` of `&str`, `&[u8]` and `DecimalParts`, which copy or borrow and decode nothing.
  unfoldable pub str_from_column_data : ColumnData t → Result (Option Text)
  str_from_column_data (ColumnData.string (some value)) = ok (some value)
  str_from_column_data (ColumnData.string none) = ok none
  str_from_column_data _ = err (Error.conversion (str "cannot interpret value as &str"))

  unfoldable pub bytes_from_column_data : ColumnData t → Result (Option (List ℕ))
  bytes_from_column_data (ColumnData.binary (some value)) = ok (some value)
  bytes_from_column_data (ColumnData.binary none) = ok none
  bytes_from_column_data _ = err (Error.conversion (str "cannot interpret value as &[u8]"))

  unfoldable pub decimal_parts_from_column_data : ColumnData t → Result (Option t.DecimalParts)
  decimal_parts_from_column_data (ColumnData.numeric value) = ok value
  decimal_parts_from_column_data _ = err (Error.conversion (str "cannot interpret value"))

  unfoldable pub listed_json : ColumnData t → Bool
  listed_json (ColumnData.json _) = true
  listed_json (ColumnData.string _) = true
  listed_json _ = false

  unfoldable pub listed_decimal : ColumnData t → Bool
  listed_decimal (ColumnData.numeric _) = true
  listed_decimal _ = false

  module _ (j : JsonCrate t) where
    -- `IntoSql` and `FromColumnData` of `serde_json::Value`.
    unfoldable pub json_into_sql : Option (Value j) → ColumnData t
    unfolding into_sql_native json_to_sql
    json_into_sql value = into_sql_native (json_to_sql j) (ColumnData.json none) value

    unfoldable pub json_from_column_data : ColumnData t → Result (Option (Value j))
    unfolding from_column_data_exact listed_json
    json_from_column_data value =
        from_column_data_exact listed_json (from_sql_json j.from_str) value

  module _ (p : Payloads t) (r : DecimalCrate) where
    -- `IntoSql` and `FromColumnData` of `Decimal`.
    unfoldable decimal_into_sql : Option r.Decimal → ColumnData t
    unfolding into_sql_native decimal_to_sql
    decimal_into_sql value = into_sql_native (decimal_to_sql p r) (ColumnData.numeric none) value

    unfoldable decimal_from_column_data : ColumnData t → Result (Option r.Decimal)
    unfolding from_column_data_exact listed_decimal
    decimal_from_column_data value =
        from_column_data_exact listed_decimal (from_sql_decimal p r) value
