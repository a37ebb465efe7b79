-- ===== src/Row/Cells.antt =====
-- src/row.rs, `Row`: cells, their pre-decoded texts, and typed access.
use mssql_tiberius_bridge.Prelude.{
  ℕ, suc, Text, Bool, ◌&&◌, ◌||◌, Option, none, some, bind_option, unwrap_or, map_option, List, [],
  ◌∷◌, map, length, get_elem?, zip_with, all, leb, ◌==◌, if◌then◌else◌,
}
use mssql_tiberius_bridge.Driver.{Tds, ColumnValues}
use mssql_tiberius_bridge.Error.{Error, Result, ok, err, ok_or, ◌>>=◌}
use mssql_tiberius_bridge.Column.{Column, ColumnType, ColumnMetadata}
use mssql_tiberius_bridge.Column.Equality.{column_type_eq}
use mssql_tiberius_bridge.Conversion.{ColumnData, column_data_ref}
use mssql_tiberius_bridge.FromSql.{FromSql}
use mssql_tiberius_bridge.Row.Schema.{
  RowSchema, from_metadata, lookup_name, column_index, resolve_name_ci,
}

-- `compat_values` is the `OnceLock` cache: `none` until it is first asked for.
pub record Row (t : Tds) : Type 0 where
  pub schema : RowSchema
  pub values : List (ColumnValues t)
  pub result_index : ℕ
  pub decoded_strings : List (Option Text)
  pub compat_values : Option (List (ColumnData t))

-- What `resolve` identifies a column by: `usize` or `&str`.
pub data ColumnIndex : Type 0 where
  by_position : ℕ → ColumnIndex
  by_name : Text → ColumnIndex

abbrev column_type_at : RowSchema → ℕ → ColumnType
column_type_at schema index =
    unwrap_or ColumnType.null (map_option (λ c. c.column_type) (get_elem? schema.columns index))

module _ {t : Tds} where
  unfoldable pub from_parts : RowSchema → List (ColumnValues t) → ℕ → List (Option Text) → Row t
  from_parts schema values result_index decoded_strings = record {
    schema = schema;
    values = values;
    result_index = result_index;
    decoded_strings = decoded_strings;
    compat_values = none;
  }

  -- The closure of `from_schema`: the text of a cell that has one.
  unfoldable pub decode_string : ColumnValues t → Option Text
  decode_string (ColumnValues.string s) = some (t.to_utf8_string s)
  decode_string (ColumnValues.xml x) = some (t.xml_as_string x)
  decode_string (ColumnValues.json j) = some (t.json_as_string j)
  decode_string _ = none

  unfoldable pub from_schema : RowSchema → List (ColumnValues t) → Row t
  unfolding from_parts
  from_schema schema values = from_parts schema values 0 (map decode_string values)

  -- `Row::from_tds`, over the address of the fresh schema.
  unfoldable pub row_from_tds : ℕ → List ColumnMetadata → List (ColumnValues t) → Row t
  unfolding from_schema
  row_from_tds identity metadata values = from_schema (from_metadata identity metadata) values

  -- `Row::build_compat_values`, from a column index.
  unfoldable pub build_compat_values :
      RowSchema → ℕ → List (ColumnValues t) → List (Option Text) → List (ColumnData t)
  build_compat_values schema index [] decoded = []
  build_compat_values schema index (v ∷ vs) [] = []
  build_compat_values schema index (v ∷ vs) (d ∷ ds) =
      column_data_ref v d (column_type_at schema index)
      ∷ build_compat_values schema (suc index) vs ds

  -- `Row::compat_values`: the cached values, or those that `get_or_init` would store.
  pub compat_values : Row t → List (ColumnData t)
  compat_values row =
      unwrap_or (build_compat_values row.schema 0 row.values row.decoded_strings) row.compat_values

  -- The row after `compat_values` has been asked for.
  unfoldable pub init_compat_values : Row t → Row t
  unfolding compat_values
  init_compat_values row = record row { compat_values = some (compat_values row) }

  -- `Row::cells`.
  unfoldable pub cells : Row t → List (Column × ColumnData t)
  unfolding compat_values
  cells row = zip_with (λ c v. (c, v)) row.schema.columns (compat_values row)

  -- `impl IntoIterator for Row`.
  unfoldable pub into_iter : Row t → List (ColumnData t)
  into_iter row = elim row.compat_values [
    | some values ↦ values
    | none ↦ build_compat_values row.schema 0 row.values row.decoded_strings
  ]

  -- `ColumnIndex::resolve`.
  unfoldable resolve : ColumnIndex → Row t → Result ℕ
  unfolding column_index
  resolve (ColumnIndex.by_position index) row =
      if leb (length row.values) index
      then err (Error.column_index_out_of_bounds index (length row.values))
      else ok index
  resolve (ColumnIndex.by_name name) row =
      ok_or (lookup_name name row.schema.name_map) (Error.column_not_found name)

  -- `Row::decoded_str_at`.
  unfoldable pub decoded_str_at : Row t → ℕ → Option Text
  decoded_str_at row index = bind_option (get_elem? row.decoded_strings index) (λ s. s)

  -- `Row::raw_value`.
  unfoldable pub raw_value : Row t → ℕ → Option (ColumnValues t)
  raw_value row index = get_elem? row.values index

  module _ {A : Type 0} (target : FromSql t A) where
    -- `Row::try_get_at`.
    unfoldable try_get_at : Row t → ℕ → Result (Option A)
    unfolding decoded_str_at
    try_get_at row index = do
      value ←
          ok_or (get_elem? row.values index)
            (Error.column_index_out_of_bounds index (length row.values))
      ok (target.from_sql_with_str value (decoded_str_at row index))

    -- `Row::try_get`.
    unfoldable pub try_get : Row t → ColumnIndex → Result (Option A)
    unfolding resolve try_get_at
    try_get row col = resolve col row >>= try_get_at row

    -- `Row::try_get_ci`.
    unfoldable try_get_ci : Row t → Text → Result (Option A)
    unfolding try_get_at
    try_get_ci row name = resolve_name_ci row.schema name >>= try_get_at row

  -- `Row::try_get_compat`, over the compatibility `FromSql` of the target.
  unfoldable pub try_get_compat :
      {A : Type 0} → (ColumnData t → Result (Option A)) → Row t → ColumnIndex → Result (Option A)
  unfolding resolve compat_values
  try_get_compat from_sql row col = do
    index ← resolve col row
    value ←
        ok_or (get_elem? (compat_values row) index)
          (Error.column_index_out_of_bounds index (length (compat_values row)))
    from_sql value

  -- `impl PartialEq for Row`, over the equality of the cells.
  unfoldable pub row_eq :
      (List (ColumnValues t) → List (ColumnValues t) → Bool) → Row t → Row t → Bool
  row_eq values_eq a b =
      (a.schema.identity == b.schema.identity
        || (length a.schema.columns == length b.schema.columns
            && all (λ same. same)
                (zip_with (λ c d. column_type_eq c.column_type d.column_type) a.schema.columns
                  b.schema.columns)))
      && values_eq a.values b.values
