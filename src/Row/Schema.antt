-- ===== src/Row/Schema.antt =====
-- src/row.rs, `RowSchema`: the columns of a result set and the index of their names.
use mssql_tiberius_bridge.Prelude.{
  ℕ, suc, Text, text_eq, Option, none, some, is_some, List, [], ◌∷◌, map, position, if◌then◌else◌,
  eq_ignore_ascii_case,
}
use mssql_tiberius_bridge.Error.{Error, Result, ok, ok_or}
use mssql_tiberius_bridge.Column.{Column, ColumnMetadata, from_tds}

-- `HashMap<String, usize>`: a lookup finds the entry of a name.
abbrev pub NameMap : Type 0
NameMap = List (Text × ℕ)

unfoldable pub lookup_name : Text → NameMap → Option ℕ
lookup_name name [] = none
lookup_name name ((key, index) ∷ rest) =
    if text_eq key name then some index else lookup_name name rest

-- `name_map.entry(name).or_insert(index)`.
unfoldable pub or_insert : Text → ℕ → NameMap → NameMap
or_insert name index m = if is_some (lookup_name name m) then m else (name, index) ∷ m

-- The loop over `columns.iter().enumerate()`.
unfoldable pub build_name_map : ℕ → List Column → NameMap → NameMap
unfolding or_insert
build_name_map index [] m = m
build_name_map index (c ∷ cs) m = build_name_map (suc index) cs (or_insert c.name index m)

-- `identity` is the address behind the `Arc` that the rows of a set share.
pub record RowSchema : Type 0 where
  pub identity : ℕ
  pub columns : List Column
  pub name_map : NameMap

-- `RowSchema::from_metadata`, at the address where it is allocated.
unfoldable pub from_metadata : ℕ → List ColumnMetadata → RowSchema
unfolding build_name_map
from_metadata identity metadata = record {
  identity = identity;
  columns = map from_tds metadata;
  name_map = build_name_map 0 (map from_tds metadata) [];
}

-- `Row::column_index`.
unfoldable pub column_index : RowSchema → Text → Option ℕ
column_index schema name = lookup_name name schema.name_map

-- `Row::resolve_name_ci`: an exact match first, then the first match up to ASCII case.
unfoldable pub resolve_name_ci : RowSchema → Text → Result ℕ
unfolding column_index
resolve_name_ci schema name = elim (column_index schema name) [
  | some index ↦ ok index
  | none ↦
      ok_or (position (λ c. eq_ignore_ascii_case c.name name) schema.columns)
        (Error.column_not_found name)
]
