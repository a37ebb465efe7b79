-- ===== src/Arrow/Blank.antt =====
-- src/bulk_arrow.rs: what a null cell is loaded as, beside a cell that holds a zero or nothing.
use mssql_tiberius_bridge.Prelude.{
  ℕ, ◌<◌, ◌≡◌, refl, ap, ◌∙◌, Bool, true, false, Text, List, [], ℤ, pos, arith,
}
use mssql_tiberius_bridge.Driver.{Tds, ColumnValues}
use mssql_tiberius_bridge.Error.{ok}
use mssql_tiberius_bridge.Payloads.{Payloads}
use mssql_tiberius_bridge.Arrow.{Array, ArrayValues, DataType}
use mssql_tiberius_bridge.Arrow.Cell.{arrow_value_to_column_value, typed_cell, null_for_arrow_type}
use mssql_tiberius_bridge.Arrow.Laws.{typed_cell_lem}

module _ {t : Tds} (p : Payloads t) (idx : ℕ) where
  -- The values of an array type that hold `false`, zero, or the empty text or bytes at the index,
  -- and the cell of the driver for it.
  pub data IsBlank : DataType → ArrayValues t → ColumnValues t → Type 0 where
    boolean :
        (vs : ℕ → Bool)
        → vs idx ≡ false
        → IsBlank DataType.boolean (ArrayValues.boolean vs) (ColumnValues.bit false)
    int8 :
        (vs : ℕ → ℤ)
        → vs idx ≡ pos 0
        → IsBlank DataType.int8 (ArrayValues.int8 vs) (ColumnValues.small_int (pos 0))
    int16 :
        (vs : ℕ → ℤ)
        → vs idx ≡ pos 0
        → IsBlank DataType.int16 (ArrayValues.int16 vs) (ColumnValues.small_int (pos 0))
    int32 :
        (vs : ℕ → ℤ)
        → vs idx ≡ pos 0
        → IsBlank DataType.int32 (ArrayValues.int32 vs) (ColumnValues.int (pos 0))
    int64 :
        (vs : ℕ → ℤ)
        → vs idx ≡ pos 0
        → IsBlank DataType.int64 (ArrayValues.int64 vs) (ColumnValues.big_int (pos 0))
    uint8 :
        (vs : ℕ → ℕ)
        → vs idx ≡ 0
        → IsBlank DataType.uint8 (ArrayValues.uint8 vs) (ColumnValues.tiny_int 0)
    uint16 :
        (vs : ℕ → ℕ)
        → vs idx ≡ 0
        → IsBlank DataType.uint16 (ArrayValues.uint16 vs) (ColumnValues.int (pos 0))
    uint32 :
        (vs : ℕ → ℕ)
        → vs idx ≡ 0
        → IsBlank DataType.uint32 (ArrayValues.uint32 vs) (ColumnValues.big_int (pos 0))
    float32 :
        (vs : ℕ → t.Float32)
        → vs idx ≡ p.float32_zero
        → IsBlank DataType.float32 (ArrayValues.float32 vs) (ColumnValues.real p.float32_zero)
    float64 :
        (vs : ℕ → t.Float64)
        → vs idx ≡ p.float64_zero
        → IsBlank DataType.float64 (ArrayValues.float64 vs) (ColumnValues.float p.float64_zero)
    utf8 :
        (vs : ℕ → Text)
        → vs idx ≡ []
        → IsBlank DataType.utf8
            (ArrayValues.string vs)
            (ColumnValues.string (t.from_utf8_string []))
    large_utf8 :
        (vs : ℕ → Text)
        → vs idx ≡ []
        → IsBlank DataType.large_utf8
            (ArrayValues.large_string vs)
            (ColumnValues.string (t.from_utf8_string []))
    binary :
        (vs : ℕ → List ℕ)
        → vs idx ≡ []
        → IsBlank DataType.binary (ArrayValues.binary vs) (ColumnValues.bytes [])
    large_binary :
        (vs : ℕ → List ℕ)
        → vs idx ≡ []
        → IsBlank DataType.large_binary (ArrayValues.large_binary vs) (ColumnValues.bytes [])

  null_marker :
      (ty : DataType) (values : ArrayValues t) (v : ColumnValues t)
      → IsBlank ty values v
      → null_for_arrow_type p ty ≡ v
  unfolding null_for_arrow_type
  null_marker _ _ _ (IsBlank.boolean vs e) = refl
  null_marker _ _ _ (IsBlank.int8 vs e) = refl
  null_marker _ _ _ (IsBlank.int16 vs e) = refl
  null_marker _ _ _ (IsBlank.int32 vs e) = refl
  null_marker _ _ _ (IsBlank.int64 vs e) = refl
  null_marker _ _ _ (IsBlank.uint8 vs e) = refl
  null_marker _ _ _ (IsBlank.uint16 vs e) = refl
  null_marker _ _ _ (IsBlank.uint32 vs e) = refl
  null_marker _ _ _ (IsBlank.float32 vs e) = refl
  null_marker _ _ _ (IsBlank.float64 vs e) = refl
  null_marker _ _ _ (IsBlank.utf8 vs e) = refl
  null_marker _ _ _ (IsBlank.large_utf8 vs e) = refl
  null_marker _ _ _ (IsBlank.binary vs e) = refl
  null_marker _ _ _ (IsBlank.large_binary vs e) = refl

  blank_cell :
      (ty : DataType) (values : ArrayValues t) (v : ColumnValues t)
      → IsBlank ty values v
      → typed_cell p ty values idx ≡ ok v
  unfolding typed_cell
  blank_cell _ _ _ (IsBlank.boolean vs e) = ap (λ x. ok (ColumnValues.bit x)) e
  blank_cell _ _ _ (IsBlank.int8 vs e) = ap (λ x. ok (ColumnValues.small_int x)) e
  blank_cell _ _ _ (IsBlank.int16 vs e) = ap (λ x. ok (ColumnValues.small_int x)) e
  blank_cell _ _ _ (IsBlank.int32 vs e) = ap (λ x. ok (ColumnValues.int x)) e
  blank_cell _ _ _ (IsBlank.int64 vs e) = ap (λ x. ok (ColumnValues.big_int x)) e
  blank_cell _ _ _ (IsBlank.uint8 vs e) = ap (λ x. ok (ColumnValues.tiny_int x)) e
  blank_cell _ _ _ (IsBlank.uint16 vs e) = ap (λ x. ok (ColumnValues.int (pos x))) e
  blank_cell _ _ _ (IsBlank.uint32 vs e) = ap (λ x. ok (ColumnValues.big_int (pos x))) e
  blank_cell _ _ _ (IsBlank.float32 vs e) = ap (λ x. ok (ColumnValues.real x)) e
  blank_cell _ _ _ (IsBlank.float64 vs e) = ap (λ x. ok (ColumnValues.float x)) e
  blank_cell _ _ _ (IsBlank.utf8 vs e) = ap (λ x. ok (ColumnValues.string (t.from_utf8_string x))) e
  blank_cell _ _ _ (IsBlank.large_utf8 vs e) =
      ap (λ x. ok (ColumnValues.string (t.from_utf8_string x))) e
  blank_cell _ _ _ (IsBlank.binary vs e) = ap (λ x. ok (ColumnValues.bytes x)) e
  blank_cell _ _ _ (IsBlank.large_binary vs e) = ap (λ x. ok (ColumnValues.bytes x)) e

  null_cell_lem :
      (array : Array t)
      → idx < array.len
      → array.is_null idx ≡ true
      → arrow_value_to_column_value p array idx ≡ ok (null_for_arrow_type p array.data_type)
  unfolding arrow_value_to_column_value
  null_cell_lem array bound null = ground arith

  -- A null cell of a boolean, integer, float, text or binary array, whatever the array stores under
  -- it, and a cell of an array of that type that is there and holds `false`, zero, or the empty text
  -- or bytes are loaded as the same cell, the one of that value. Both cells are in bounds.
  pub arrow_value_to_column_value-blank :
      (absent present : Array t) (ty : DataType) (values : ArrayValues t) (v : ColumnValues t)
      → absent.data_type ≡ ty
      → idx < absent.len
      → absent.is_null idx ≡ true
      → present.data_type ≡ ty
      → present.values ≡ values
      → idx < present.len
      → present.is_null idx ≡ false
      → IsBlank ty values v
      → (arrow_value_to_column_value p absent idx ≡ ok v)
        × (arrow_value_to_column_value p present idx ≡ ok v)
  arrow_value_to_column_value-blank absent present ty values v t_a b_a null t_p stored b_p there h =
      (
        null_cell_lem absent b_a null
            ∙ ap (λ d. ok (null_for_arrow_type p d)) t_a
            ∙ ap ok (null_marker ty values v h),
        typed_cell_lem p present idx b_p there
            ∙ (λ i. typed_cell p (t_p i) (stored i) idx)
            ∙ blank_cell ty values v h,
      )
