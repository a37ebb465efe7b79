-- ===== src/FromSql/Laws.antt =====
-- row.rs: how the integer targets of `FromSql` relate.
use mssql_tiberius_bridge.Prelude.{
  ℕ, ◌≡◌, refl, Option, none, some, ℤ, pos, map_option, leb, if◌then◌else◌,
}
use mssql_tiberius_bridge.Driver.{Tds, ColumnValues}
use mssql_tiberius_bridge.FromSql.{from_sql_u8, from_sql_i16, from_sql_i32, from_sql_i64}

-- The integer that a cell holds, of whatever width.
abbrev int_value : {t : Tds} → ColumnValues t → Option ℤ
int_value (ColumnValues.tiny_int n) = some (pos n)
int_value (ColumnValues.small_int z) = some z
int_value (ColumnValues.int z) = some z
int_value (ColumnValues.big_int z) = some z
int_value _ = none

-- Its width in bytes.
abbrev int_width : {t : Tds} → ColumnValues t → ℕ
int_width (ColumnValues.tiny_int n) = 1
int_width (ColumnValues.small_int z) = 2
int_width (ColumnValues.int z) = 4
int_width _ = 8

abbrev up_to : {t : Tds} → ℕ → ColumnValues t → Option ℤ
up_to width v = if leb (int_width v) width then int_value v else none

module _ {t : Tds} where
  -- Each integer target reads exactly the integer cells that are no wider than itself, as the number
  -- that they hold: none is narrowed, and none that fits is refused.
  pub from_sql_widening :
      (v : ColumnValues t)
      → (map_option pos (from_sql_u8 v) ≡ up_to 1 v)
        × (from_sql_i16 v ≡ up_to 2 v)
        × (from_sql_i32 v ≡ up_to 4 v)
        × (from_sql_i64 v ≡ up_to 8 v)
  unfolding from_sql_u8 from_sql_i16 from_sql_i32 from_sql_i64
  from_sql_widening (ColumnValues.tiny_int n) = (refl, refl, refl, refl)
  from_sql_widening _ = (refl, refl, refl, refl)
