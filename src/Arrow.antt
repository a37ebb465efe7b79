-- ===== src/Arrow.antt =====
-- src/bulk_arrow.rs: Arrow record batches as rows of a bulk insert. The arrays of arrow-rs are what
-- the crate reads of them: a data type, a length, the null bits, and the typed values that a downcast
-- finds.
pub mod Decimal
pub mod Cell
pub mod Rows
pub mod Laws
pub mod Blank
pub mod Order
use mssql_tiberius_bridge.Prelude.{ℕ, Text, Bool, Option, none, some, List, ℤ}
use mssql_tiberius_bridge.Driver.{Tds}

pub data TimeUnit : Type 0 where
  second millisecond microsecond nanosecond : TimeUnit

-- `DataType`, with the types that the crate does not name as one.
pub data DataType : Type 0 where
  boolean int8 int16 int32 int64 uint8 uint16 uint32 float32 float64 : DataType
  utf8 large_utf8 binary large_binary : DataType
  fixed_size_binary : ℕ → DataType
  date32 : DataType
  time64 : TimeUnit → DataType
  timestamp : TimeUnit → Option Text → DataType
  decimal128 : ℕ → ℤ → DataType
  other : DataType

-- The concrete array types that the crate downcasts to, with `value`.
pub data ArrayValues (t : Tds) : Type 0 where
  boolean : (ℕ → Bool) → ArrayValues t
  int8 : (ℕ → ℤ) → ArrayValues t
  int16 : (ℕ → ℤ) → ArrayValues t
  int32 : (ℕ → ℤ) → ArrayValues t
  int64 : (ℕ → ℤ) → ArrayValues t
  uint8 : (ℕ → ℕ) → ArrayValues t
  uint16 : (ℕ → ℕ) → ArrayValues t
  uint32 : (ℕ → ℕ) → ArrayValues t
  float32 : (ℕ → t.Float32) → ArrayValues t
  float64 : (ℕ → t.Float64) → ArrayValues t
  string : (ℕ → Text) → ArrayValues t
  large_string : (ℕ → Text) → ArrayValues t
  binary : (ℕ → List ℕ) → ArrayValues t
  large_binary : (ℕ → List ℕ) → ArrayValues t
  fixed_size_binary : (ℕ → List ℕ) → ArrayValues t
  date32 : (ℕ → ℤ) → ArrayValues t
  time64 : TimeUnit → (ℕ → ℤ) → ArrayValues t
  timestamp : TimeUnit → (ℕ → ℤ) → ArrayValues t
  decimal128 : (ℕ → ℤ) → ArrayValues t
  other : ArrayValues t

-- `&dyn Array`.
pub record Array (t : Tds) : Type 0 where
  pub data_type : DataType
  pub len : ℕ
  pub is_null : ℕ → Bool
  pub values : ArrayValues t
