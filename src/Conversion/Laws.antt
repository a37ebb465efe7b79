-- ===== src/Conversion/Laws.antt =====
-- compat/conversion.rs: which conversions lose nothing.
use mssql_tiberius_bridge.Prelude.{Text, ◌≡◌, refl, ◌≢◌, ap, Option, none, some, arith}
use mssql_tiberius_bridge.Driver.{Tds, TextLaws, ColumnValues, SqlType}
use mssql_tiberius_bridge.Error.{ok}
use mssql_tiberius_bridge.Column.{ColumnType}
use mssql_tiberius_bridge.Conversion.{
  ColumnData, from_native, into_column_value, column_data_ref, string_to_sql, to_sql,
}

-- A native parameter that has no Tiberius shape; only these stay `native`.
abbrev IsBridgeOnly : {t : Tds} → SqlType t → Type 0
IsBridgeOnly (SqlType.vector v d b) = Unit
IsBridgeOnly (SqlType.variant v) = Unit
IsBridgeOnly (SqlType.table n v) = Unit
IsBridgeOnly (SqlType.udt n v) = Unit
IsBridgeOnly _ = ⊥

-- `native` is used only for what has no Tiberius shape.
abbrev IsFaithful : {t : Tds} → ColumnData t → Type 0
IsFaithful (ColumnData.native value) = IsBridgeOnly value
IsFaithful _ = Unit

module _ {t : Tds} (laws : TextLaws t) where
  from_native-string_to_sql :
      (value : Option Text) → from_native (string_to_sql {t = t} value) ≡ ColumnData.string value
  unfolding string_to_sql from_native
  from_native-string_to_sql none = refl
  from_native-string_to_sql (some s) = ground (arith, laws.utf8 s)

  -- A value that is bound as a parameter and taken back from the driver's parameter is the value:
  -- the 4000-unit switch between `nvarchar(4000)` and `nvarchar(max)` is invisible, given that the
  -- driver's text payloads decode to the text they were made from and that `native` carries only
  -- what has no other shape.
  pub from_native-to_sql : (d : ColumnData t) → IsFaithful d → from_native (to_sql d) ≡ d
  unfolding to_sql from_native
  from_native-to_sql (ColumnData.string value) h = from_native-string_to_sql value
  from_native-to_sql (ColumnData.xml (some s)) h = ap (λ x. ColumnData.xml (some x)) (laws.xml s)
  from_native-to_sql (ColumnData.xml none) h = refl
  from_native-to_sql (ColumnData.json (some s)) h = ap (λ x. ColumnData.json (some x)) (laws.json s)
  from_native-to_sql (ColumnData.json none) h = refl
  from_native-to_sql (ColumnData.native (SqlType.vector v d b)) h = refl
  from_native-to_sql (ColumnData.native (SqlType.variant v)) h = refl
  from_native-to_sql (ColumnData.native (SqlType.table n v)) h = refl
  from_native-to_sql (ColumnData.native (SqlType.udt n v)) h = refl
  from_native-to_sql (ColumnData.native _) h = absurd h
  from_native-to_sql _ h = refl

  -- Taking a parameter back keeps as `native` only what has no other shape.
  from_native-IsFaithful : (p : SqlType t) → IsFaithful (from_native p)
  unfolding from_native
  from_native-IsFaithful (SqlType.bit v) = tt
  from_native-IsFaithful _ = tt

  -- A value that converts to a cell other than NULL is read back from that cell, without a
  -- pre-decoded text, as itself, whatever the type of the column, given that the driver's text
  -- payloads decode to the text they were made from.
  pub column_data_ref-into_column_value :
      (d : ColumnData t) (v : ColumnValues t) (ty : ColumnType)
      → into_column_value d ≡ ok v
      → v ≢ ColumnValues.null
      → column_data_ref v none ty ≡ d
  unfolding into_column_value column_data_ref
  column_data_ref-into_column_value (ColumnData.string (some s)) v ty e h =
      ground (arith, laws.utf8 s)
  column_data_ref-into_column_value (ColumnData.xml (some s)) v ty e h = ground (arith, laws.xml s)
  column_data_ref-into_column_value (ColumnData.json (some s)) v ty e h =
      ground (arith, laws.json s)
  column_data_ref-into_column_value (ColumnData.bit (some s)) v ty e h = ground arith
  column_data_ref-into_column_value _ v ty e h = ground arith
