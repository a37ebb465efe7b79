-- ===== src/Row/Access.antt =====
-- row.rs: typed access to the cells of a row, and the cache of compatibility values.
use mssql_tiberius_bridge.Prelude.{
  ℕ, zero, suc, ◌≤◌, ◌<◌, ◌≡◌, refl, ap, Text, text_eq, Bool, true, Option, none, some,
  Option-cases, inl, inr, List, [], ◌∷◌, length, get_elem?, position, arith, map, get_elem?-some,
  get_elem?-lt, ◌≢◌, ◌↔◌, all, zip_with, ◌==◌, ◌&&◌,
}
use mssql_tiberius_bridge.Driver.{Tds, ColumnValues}
use mssql_tiberius_bridge.Error.{Error, Result, ok, err}
use mssql_tiberius_bridge.Column.{Column, ColumnMetadata, ColumnType}
use mssql_tiberius_bridge.Column.Equality.{column_type_eq, column_type_eq_lem}
use mssql_tiberius_bridge.Conversion.{ColumnData}
use mssql_tiberius_bridge.FromSql.{FromSql}
use mssql_tiberius_bridge.Row.Schema.{RowSchema, from_metadata, column_index}
use mssql_tiberius_bridge.Row.Cells.{
  Row, ColumnIndex, compat_values, init_compat_values, cells, into_iter, decoded_str_at, try_get,
  try_get_compat, row_eq,
}
use mssql_tiberius_bridge.Row.Laws.{column_index-from_metadata}

-- A row of a result set: a cell for each column, and the name index of its metadata.
pub record IsRowOf {t : Tds} (identity : ℕ) (metadata : List ColumnMetadata) (row : Row t)
    : Type 0 where
  pub schema_of : row.schema ≡ from_metadata identity metadata
  pub width : length row.values ≡ length (from_metadata identity metadata).columns
  pub texts : length row.decoded_strings ≡ length row.values

position-lt :
    {A : Type 0} (p : A → Bool) (xs : List A) (i : ℕ) → position p xs ≡ some i → i < length xs
position-lt p [] i h = cc
position-lt p (x ∷ xs) i h = elim (Option-cases (position p xs)) [
  | inl e ↦ ground arith
  | inr (j, e) ↦ ground (arith, position-lt p xs j e)
]

past : {A : Type 0} (xs : List A) (i : ℕ) → get_elem? xs i ≡ none → length xs ≤ i
past [] i e = omega arith
past (x ∷ xs) zero e = ground arith
past (x ∷ xs) (suc i) e = omega (arith, past xs i e)

module _ {t : Tds} {A : Type 0} (target : FromSql t A) where
  -- Access by position: past the last cell the error names the index and the number of cells;
  -- before it the answer is what the target makes of the cell and its pre-decoded text.
  pub try_get-by_position :
      (row : Row t) (i : ℕ)
      → try_get target row (ColumnIndex.by_position i) ≡ elim (get_elem? row.values i) [
        | some v ↦ ok (target.from_sql_with_str v (decoded_str_at row i))
        | none ↦ err (Error.column_index_out_of_bounds i (length row.values))
      ]
  unfolding try_get
  try_get-by_position row i = elim (Option-cases (get_elem? row.values i)) [
    | inl e ↦ ground (arith, past row.values i e)
    | inr (v, e) ↦ ground (arith, get_elem?-lt row.values i v e)
  ]

  -- Access by name in a row of a result set is access by the position of the first column of that
  -- name, and `ColumnNotFound` if there is none. The position is never out of bounds.
  pub try_get-by_name :
      (identity : ℕ) (metadata : List ColumnMetadata) (row : Row t) (name : Text)
      → IsRowOf identity metadata row
      → let first = position (λ c. text_eq c.name name) (from_metadata identity metadata).columns in
        (try_get target row (ColumnIndex.by_name name) ≡ elim first [
          | some i ↦ try_get target row (ColumnIndex.by_position i)
          | none ↦ err (Error.column_not_found name)
        ])
        × ((i count : ℕ)
            → try_get target row (ColumnIndex.by_name name)
              ≢ err (Error.column_index_out_of_bounds i count))
  unfolding try_get
  try_get-by_name identity metadata row name h =
      let first = position (λ c. text_eq c.name name) (from_metadata identity metadata).columns in
      let e : column_index row.schema name ≡ first =
        rw h.schema_of (column_index-from_metadata identity metadata name) in
      elim (Option-cases first) [
        | inl missing ↦ (
          unfold column_index in ground (arith, e),
          λ i count. unfold column_index in ground (arith, e),
        )
        | inr (i, found) ↦
            let lt : i < length row.values =
              rw h.width (position-lt _ (from_metadata identity metadata).columns i found) in
            let (v, cell) = get_elem?-some row.values i lt in
            (
              unfold column_index in ground (arith, e, cell),
              λ j count. unfold column_index in ground (arith, e, cell),
            )
      ]

types_match :
    (type_eq : ColumnType → ColumnType → Bool)
    → ((a b : ColumnType) → (type_eq a b ≡ true) ↔ (a ≡ b))
    → (cs ds : List Column)
    → ((length cs == length ds
          && all (λ same. same) (zip_with (λ c d. type_eq c.column_type d.column_type) cs ds))
        ≡ true)
      ↔ (map (λ c. c.column_type) cs ≡ map (λ c. c.column_type) ds)
types_match type_eq laws [] [] = (λ e. refl, λ e. refl)
types_match type_eq laws [] (d ∷ ds) = (λ e. ground arith, λ e. cc)
types_match type_eq laws (c ∷ cs) [] = (λ e. ground arith, λ e. cc)
types_match type_eq laws (c ∷ cs) (d ∷ ds) =
    let ih = types_match type_eq laws cs ds in
    let head = laws c.column_type d.column_type in
    (λ e. ground (arith, ih, head), λ e. ground (arith, ih, head))

module _ {t : Tds} where
  try_get_compat-init :
      {A : Type 0} (from_sql : ColumnData t → Result (Option A)) (row : Row t) (col : ColumnIndex)
      → try_get_compat from_sql (init_compat_values row) col ≡ try_get_compat from_sql row col
  unfolding init_compat_values try_get_compat
  try_get_compat-init from_sql row (ColumnIndex.by_position i) = refl
  try_get_compat-init from_sql row (ColumnIndex.by_name name) = refl

  -- Asking for the compatibility values stores them, and no access can tell: the cells, the
  -- iteration, and every typed access by position or name are as before.
  pub init_compat_values_invisible :
      (row : Row t)
      → (cells (init_compat_values row) ≡ cells row)
        × (into_iter (init_compat_values row) ≡ into_iter row)
        × (into_iter row ≡ compat_values row)
        × ((A : Type 0) (from_sql : ColumnData t → Result (Option A)) (col : ColumnIndex)
            → try_get_compat from_sql (init_compat_values row) col
              ≡ try_get_compat from_sql row col)
  unfolding cells init_compat_values into_iter try_get_compat
  init_compat_values_invisible row =
      (refl, ground arith, ground arith, λ A from_sql. try_get_compat-init from_sql row)

  -- Two rows are equal if and only if their columns have the same types in order and their cells are
  -- equal: the shortcut for rows that share a schema does not change the answer, provided that one
  -- address holds one schema.
  pub row_eq_lem :
      (values_eq : List (ColumnValues t) → List (ColumnValues t) → Bool) (a b : Row t)
      → (a.schema.identity ≡ b.schema.identity → a.schema ≡ b.schema)
      → (row_eq values_eq a b ≡ true) ↔ (
          (map (λ c. c.column_type) a.schema.columns ≡ map (λ c. c.column_type) b.schema.columns)
          × (values_eq a.values b.values ≡ true))
  unfolding row_eq
  row_eq_lem values_eq a b shared =
      let slow = types_match column_type_eq column_type_eq_lem a.schema.columns b.schema.columns in
      let same = λ (p : a.schema.identity ≡ b.schema.identity).
        ap (λ (s : RowSchema). map (λ c. c.column_type) s.columns) (shared p) in
      (λ e. ground (arith, slow, same), λ e. ground (arith, slow))
