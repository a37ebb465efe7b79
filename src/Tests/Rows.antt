-- ===== src/Tests/Rows.antt =====
-- Rows, their writer, access by name and by position, parameters and streams at concrete data.
use mssql_tiberius_bridge.Prelude.{
  List, [], ascii_lower, eq_ignore_ascii_case, length, none, pos, position, refl, some, str,
  text_eq, true, ℕ, ◌∷◌, ◌≡◌, ◌≢◌, ◌==◌, Bool, arith,
}
use mssql_tiberius_bridge.Driver.{plain, ColumnValues, SqlType, TdsDataType}
use mssql_tiberius_bridge.Error.{Error, ok, err}
use mssql_tiberius_bridge.Column.{ColumnMetadata, from_tds}
use mssql_tiberius_bridge.FromSql.{by_value, from_sql_i32}
use mssql_tiberius_bridge.Row.Schema.{from_metadata, column_index, resolve_name_ci}
use mssql_tiberius_bridge.Row.Cells.{Row, ColumnIndex, row_from_tds, from_schema, try_get}
use mssql_tiberius_bridge.Row.Writer.{Write, with_result_index, take_row, write_all}
use mssql_tiberius_bridge.Row.Writer.Laws.{take_row-write_all}
use mssql_tiberius_bridge.Row.Laws.{column_index-from_metadata, resolve_name_ci_lem}
use mssql_tiberius_bridge.Row.Access.{IsRowOf, try_get-by_name}
use mssql_tiberius_bridge.Query.Results.{RowStream, QueryResult}
use mssql_tiberius_bridge.Tests.{column}

abbrev metadata : List ColumnMetadata
metadata =
    column (str "Id") TdsDataType.int4
    ∷ column (str "id") TdsDataType.n_var_char
    ∷ column (str "Id") TdsDataType.int4
    ∷ []

abbrev writes : List (Write plain)
writes =
    Write.write_i32 (pos 4)
    ∷ Write.write_string (str "x") true
    ∷ Write.write_null
    ∷ Write.end_row
    ∷ []

abbrev row : Row plain
row =
    row_from_tds 1 metadata
      (ColumnValues.int (pos 4) ∷ ColumnValues.string (str "x") ∷ ColumnValues.null ∷ [])

row-IsRowOf : IsRowOf 1 metadata row
unfolding row_from_tds from_schema from_metadata
row-IsRowOf = record { schema_of = refl; width = refl; texts = refl }

column_index_example :
    column_index (from_metadata 1 metadata) (str "id")
    ≡ position (λ c. text_eq c.name (str "id")) (from_metadata 1 metadata).columns
column_index_example = column_index-from_metadata 1 metadata (str "id")

resolve_name_ci_example :
    resolve_name_ci (from_metadata 1 metadata) (str "ID")
    ≡ elim (position (λ c. text_eq c.name (str "ID")) (from_metadata 1 metadata).columns) [
      | some i ↦ ok i
      | none ↦
          elim (position
            (λ c. eq_ignore_ascii_case c.name (str "ID"))
            (from_metadata 1 metadata).columns) [
              | some i ↦ ok i
              | none ↦ err (Error.column_not_found (str "ID"))
            ]
    ]
resolve_name_ci_example = resolve_name_ci_lem 1 metadata (str "ID")

absent :
    position (λ c. eq_ignore_ascii_case c.name (str "nr")) (from_metadata 1 metadata).columns ≡ none
unfolding from_metadata from_tds eq_ignore_ascii_case ascii_lower
absent = refl

try_get-by_name_example :
    (try_get (by_value from_sql_i32) row (ColumnIndex.by_name (str "id"))
      ≡ elim (position (λ c. text_eq c.name (str "id")) (from_metadata 1 metadata).columns) [
        | some i ↦ try_get (by_value from_sql_i32) row (ColumnIndex.by_position i)
        | none ↦ err (Error.column_not_found (str "id"))
      ])
    × ((i count : ℕ)
        → try_get (by_value from_sql_i32) row (ColumnIndex.by_name (str "id"))
          ≢ err (Error.column_index_out_of_bounds i count))
try_get-by_name_example =
    try_get-by_name (by_value from_sql_i32) 1 metadata row (str "id") row-IsRowOf

take_row_example :
    take_row {t = plain} (write_all (with_result_index (from_metadata 1 metadata) 2) writes) ≡ (
      record (from_schema
          (from_metadata 1 metadata)
          (ColumnValues.int (pos 4) ∷ ColumnValues.string (str "x") ∷ ColumnValues.null ∷ [])) {
            result_index = 2;
          },
      with_result_index (from_metadata 1 metadata) 2,
    )
take_row_example = take_row-write_all (from_metadata 1 metadata) 2 writes

abbrev parameters : List (SqlType plain)
parameters = SqlType.int (some (pos 2)) ∷ SqlType.n_varchar (some (str "y")) 4000 ∷ []

abbrev result : QueryResult ℕ
result = record { result_sets = (1 ∷ []) ∷ [] ∷ (2 ∷ 3 ∷ []) ∷ [] }

abbrev midway : RowStream ℕ
midway = record { sets = [] ∷ (2 ∷ 3 ∷ []) ∷ []; current = []; remaining = 2 }

abbrev other_row : Row plain
other_row =
    row_from_tds 2 metadata
      (ColumnValues.int (pos 5) ∷ ColumnValues.string (str "x") ∷ ColumnValues.null ∷ [])

abbrev same_length : List (ColumnValues plain) → List (ColumnValues plain) → Bool
same_length xs ys = length xs == length ys

apart : row.schema.identity ≡ other_row.schema.identity → row.schema ≡ other_row.schema
unfolding row_from_tds from_schema from_metadata
apart e = absurd (omega (arith, e))
