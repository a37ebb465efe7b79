-- ===== src/Serde/Visit.antt =====
-- src/serde_de.rs and serde's `Visitor`: a cell as a deserializer, and what a visitor is shown.
use mssql_tiberius_bridge.Prelude.{ℕ, Bool, Text, Option, List, ℤ}
use mssql_tiberius_bridge.Driver.{Tds, ColumnValues}

-- `ColumnValueDeserializer`.
pub record Cell (t : Tds) : Type 0 where
  pub val : ColumnValues t
  pub decoded : Option Text

-- The integer types that `visit_int` is used at.
pub data IntType : Type 0 where
  i8 i16 i32 i64 i128 u8 u16 u32 u64 u128 : IntType

-- The methods of `Visitor` that are called, with their arguments. `enum_access` and `newtype_struct`
-- hand on the cell, as `some` does.
pub data Visit (t : Tds) : Type 0 where
  unit none : Visit t
  some : Cell t → Visit t
  bool : Bool → Visit t
  int : IntType → ℤ → Visit t
  f32 : t.Float32 → Visit t
  f64 : t.Float64 → Visit t
  char : ℕ → Visit t
  borrowed_str : Text → Visit t
  string : Text → Visit t
  borrowed_bytes : List ℕ → Visit t
  byte_buf : List ℕ → Visit t
  newtype_struct : Cell t → Visit t
  enum_access : Cell t → Visit t
