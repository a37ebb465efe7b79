-- ===== src/Vector.antt =====
-- src/vector.rs: vectors of floats.
use mssql_tiberius_bridge.Prelude.{
  ℕ, ◌%◌, ◌^◌, ◌≡◌, refl, ap, Bool, Option, none, some, List, length, is_empty,
}
use mssql_tiberius_bridge.Driver.{Tds, ColumnValues, SqlType}
use mssql_tiberius_bridge.Task.{TdsResult, tds_ok, tds_err}

-- `SqlVector` of the driver: its constructor and its only kind of data.
pub record VectorCrate (t : Tds) : Type 0 where
  pub try_from_f32 : List t.Float32 → TdsResult t.SqlVector
  pub float32_data : t.SqlVector → List t.Float32
  pub float32 : t.VectorBaseType

-- A vector that was made holds the floats that it was made from.
pub record VectorLaws {t : Tds} (v : VectorCrate t) : Type 0 where
  pub data_of :
      (xs : List t.Float32) (sv : t.SqlVector)
      → v.try_from_f32 xs ≡ tds_ok sv
      → v.float32_data sv ≡ xs

pub record VectorValue (t : Tds) : Type 0 where
  pub dimensions : List t.Float32

module _ {t : Tds} where
  -- `VectorValue::new` and `From<Vec<f32>>`.
  unfoldable pub new : List t.Float32 → VectorValue t
  new dimensions = record { dimensions = dimensions }

  -- `VectorValue::into_dimensions` and `From<VectorValue>`.
  unfoldable into_dimensions : VectorValue t → List t.Float32
  into_dimensions v = v.dimensions

  unfoldable len : VectorValue t → ℕ
  len v = length v.dimensions

  unfoldable vector_is_empty : VectorValue t → Bool
  vector_is_empty v = is_empty v.dimensions

module _ {t : Tds} (c : VectorCrate t) where
  -- `FromSql for VectorValue`.
  unfoldable pub from_sql_vector : ColumnValues t → Option (VectorValue t)
  unfolding new
  from_sql_vector (ColumnValues.vector sv) = some (new (c.float32_data sv))
  from_sql_vector _ = none

  -- `ToSql for VectorValue`.
  unfoldable pub vector_to_sql : VectorValue t → SqlType t
  vector_to_sql v =
      let dim_count = length v.dimensions % 2 ^ 16 in
      elim (c.try_from_f32 v.dimensions) [
        | tds_ok sv ↦ SqlType.vector (some sv) dim_count c.float32
        | tds_err _ ↦ SqlType.vector none dim_count c.float32
      ]

  -- What the driver accepts as a vector is sent with its floats, and reads back.
  pub from_sql_vector-vector_to_sql :
      (v : VectorValue t) (sv : t.SqlVector)
      → VectorLaws c
      → c.try_from_f32 v.dimensions ≡ tds_ok sv
      → (vector_to_sql v ≡ SqlType.vector (some sv) (length v.dimensions % 2 ^ 16) c.float32)
        × (from_sql_vector (ColumnValues.vector sv) ≡ some v)
  unfolding vector_to_sql from_sql_vector new
  from_sql_vector-vector_to_sql v sv laws made = (
    rw (vector_to_sql, made) refl,
    ap (λ xs. some (record { dimensions = xs })) (laws.data_of v.dimensions sv made),
  )
