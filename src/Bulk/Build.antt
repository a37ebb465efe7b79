-- ===== src/Bulk/Build.antt =====
-- src/bulk.rs, `TokenRow` and `IntoRow`, and src/client.rs, the bulk inserts that a client begins.
use mssql_tiberius_bridge.Prelude.{
  ℕ, zero, suc, ◌+◌, ◌≡◌, refl, sym, ap, ◌∙◌, Text, Bool, Option, some, map_option, List, [], ◌∷◌,
  ◌++◌, is_empty, get_elem?, arith,
}
use mathlib.Core.List.{append_assoc, append-nil}
use mssql_tiberius_bridge.Driver.{Tds}
use mssql_tiberius_bridge.Conversion.{ColumnData}
use mssql_tiberius_bridge.Bulk.{
  BulkCopyOptions, ColumnMapping, BulkInsert, TokenRow, new, add_column_mapping,
  map_column_by_ordinal, push,
}

module _ {t : Tds} where
  -- `TokenRow::new`, and `with_capacity`, whose capacity is not seen.
  unfoldable empty_row : TokenRow t
  empty_row = record { values = [] }

  unfoldable clear : TokenRow t → TokenRow t
  clear row = record { values = [] }

  unfoldable row_is_empty : TokenRow t → Bool
  row_is_empty row = is_empty row.values

  unfoldable get : TokenRow t → ℕ → Option (ColumnData t)
  get row index = get_elem? row.values index

  -- `row.push(self.$field.into_sql())` for each field that is left.
  unfoldable push_fields : TokenRow t → List (ColumnData t) → TokenRow t
  unfolding push
  push_fields row [] = row
  push_fields row (field ∷ fields) = push_fields (push row field) fields

  -- `IntoRow::into_row` of a scalar or a tuple, whose fields `into_sql` has converted.
  unfoldable into_row : List (ColumnData t) → TokenRow t
  unfolding push_fields empty_row
  into_row fields = push_fields empty_row fields

  values-push_fields :
      (row : TokenRow t) (fields : List (ColumnData t))
      → (push_fields row fields).values ≡ row.values ++ fields
  unfolding push_fields push
  values-push_fields row [] = sym (append-nil row.values)
  values-push_fields row (field ∷ fields) =
      values-push_fields (push row field) fields ∙ append_assoc row.values (field ∷ []) fields

  -- A tuple's row has its fields in order.
  into_row-values : (fields : List (ColumnData t)) → (into_row fields).values ≡ fields
  unfolding into_row empty_row
  into_row-values fields = values-push_fields empty_row fields

-- `Client::bulk_insert`, over the driver's default options.
unfoldable pub bulk_insert : BulkCopyOptions → Text → BulkInsert
unfolding new
bulk_insert defaults table = new defaults table

-- `for (ordinal, dest) in columns.iter().enumerate()`, from an ordinal on.
unfoldable map_columns_from : ℕ → BulkInsert → List Text → BulkInsert
unfolding map_column_by_ordinal
map_columns_from ordinal bi [] = bi
map_columns_from ordinal bi (dest ∷ columns) =
    map_columns_from (ordinal + 1) (map_column_by_ordinal bi ordinal dest) columns

-- `Client::bulk_insert_with_columns`.
unfoldable pub bulk_insert_with_columns : BulkCopyOptions → Text → List Text → BulkInsert
unfolding new map_columns_from
bulk_insert_with_columns defaults table columns = map_columns_from 0 (new defaults table) columns

-- The mappings of the columns from an ordinal on.
abbrev ordinals_from : ℕ → List Text → List ColumnMapping
ordinals_from ordinal [] = []
ordinals_from ordinal (dest ∷ columns) =
    ColumnMapping.by_ordinal ordinal dest ∷ ordinals_from (ordinal + 1) columns

map_columns_from_lem :
    (ordinal : ℕ) (bi : BulkInsert) (columns : List Text)
    → map_columns_from ordinal bi columns
      ≡ record bi { column_mappings = bi.column_mappings ++ ordinals_from ordinal columns }
unfolding map_columns_from map_column_by_ordinal add_column_mapping
map_columns_from_lem ordinal bi [] =
    ap (λ l. record bi { column_mappings = l }) (sym (append-nil bi.column_mappings))
map_columns_from_lem ordinal bi (dest ∷ columns) =
    map_columns_from_lem (ordinal + 1) (map_column_by_ordinal bi ordinal dest) columns
    ∙ ap (λ l. record bi { column_mappings = l })
        (append_assoc bi.column_mappings (ColumnMapping.by_ordinal ordinal dest ∷ [])
          (ordinals_from (ordinal + 1) columns))

get_elem?-ordinals_from :
    (ordinal i : ℕ) (columns : List Text)
    → get_elem? (ordinals_from ordinal columns) i
      ≡ map_option (ColumnMapping.by_ordinal (ordinal + i)) (get_elem? columns i)
get_elem?-ordinals_from ordinal i [] = refl
get_elem?-ordinals_from ordinal zero (dest ∷ columns) =
    ap (λ o. some (ColumnMapping.by_ordinal o dest)) (omega arith)
get_elem?-ordinals_from ordinal (suc i) (dest ∷ columns) =
    let shift : ordinal + 1 + i ≡ ordinal + suc i = omega arith in
    get_elem?-ordinals_from (ordinal + 1) i columns
    ∙ ap (λ o. map_option (ColumnMapping.by_ordinal o) (get_elem? columns i)) shift

-- A bulk insert with column names sends the value at each position of a row to the column named at
-- that position, and has no other mapping; its table and its options are those of a plain bulk
-- insert.
pub bulk_insert_with_columns_lem :
    (defaults : BulkCopyOptions) (table : Text) (columns : List Text) (i : ℕ)
    → (get_elem? ((bulk_insert_with_columns defaults table columns).column_mappings) i
        ≡ map_option (ColumnMapping.by_ordinal i) (get_elem? columns i))
      × (record (bulk_insert_with_columns defaults table columns) { column_mappings = [] }
          ≡ bulk_insert defaults table)
unfolding bulk_insert_with_columns bulk_insert new
bulk_insert_with_columns_lem defaults table columns i =
    let e = map_columns_from_lem 0 (new defaults table) columns in
    let none_before : 0 + i ≡ i = omega arith in
    (
      ap (λ (bi : BulkInsert). get_elem? bi.column_mappings i) e
          ∙ get_elem?-ordinals_from 0 i columns
          ∙ ap (λ o. map_option (ColumnMapping.by_ordinal o) (get_elem? columns i)) none_before,
      ap (λ (bi : BulkInsert). record bi { column_mappings = [] }) e,
    )
