-- ===== src/Serde/Laws.antt =====
-- src/serde_de.rs: the integers a visitor is shown, and what the hints agree on.
use mssql_tiberius_bridge.Prelude.{
  ℕ, ◌≡◌, refl, ◌∙◌, subst, ◌↔◌, true, false, some, ℤ, pos, ◌≤ℤ◌, arith,
}
use mssql_tiberius_bridge.Driver.{Tds, ColumnValues}
use mssql_tiberius_bridge.Error.{Result, ok, ok_or, >>=-ok, ok_or-ok}
use mssql_tiberius_bridge.Serde.Visit.{Cell, IntType, Visit}
use mssql_tiberius_bridge.Serde.Cell.{
  int_min, int_max, wide_of, try_from_wide, deserialize_int, unsupported_error, int_name,
}

try_from_wide-some :
    (ty : IntType) (y z : ℤ)
    → try_from_wide ty y ≡ some z
    → (y ≡ z) × (int_min ty ≤ℤ z) × (z ≤ℤ int_max ty)
unfolding try_from_wide
try_from_wide-some ty y z h = (ground arith, ground arith, ground arith)

try_from_wide_fits :
    (ty : IntType) (z : ℤ) → int_min ty ≤ℤ z → z ≤ℤ int_max ty → try_from_wide ty z ≡ some z
unfolding try_from_wide
try_from_wide_fits ty z low high = ground arith

module _ {t : Tds} where
  -- The integer that a cell holds, a bit as zero or one.
  pub data IntCell : ColumnValues t → ℤ → Type 0 where
    tiny_cell : (n : ℕ) → IntCell (ColumnValues.tiny_int n) (pos n)
    small_cell : (z : ℤ) → IntCell (ColumnValues.small_int z) z
    int_cell : (z : ℤ) → IntCell (ColumnValues.int z) z
    big_cell : (z : ℤ) → IntCell (ColumnValues.big_int z) z
    unset_cell : IntCell (ColumnValues.bit false) (pos 0)
    set_cell : IntCell (ColumnValues.bit true) (pos 1)

  pub wide_of-IntCell : (v : ColumnValues t) (z : ℤ) → wide_of v ≡ some z → IntCell v z
  unfolding wide_of
  wide_of-IntCell (ColumnValues.tiny_int n) z h =
      subst (λ y. IntCell (ColumnValues.tiny_int n) y) (cc) (tiny_cell n)
  wide_of-IntCell (ColumnValues.small_int n) z h =
      subst (λ y. IntCell (ColumnValues.small_int n) y) (cc) (small_cell n)
  wide_of-IntCell (ColumnValues.int n) z h =
      subst (λ y. IntCell (ColumnValues.int n) y) (cc) (int_cell n)
  wide_of-IntCell (ColumnValues.big_int n) z h =
      subst (λ y. IntCell (ColumnValues.big_int n) y) (cc) (big_cell n)
  wide_of-IntCell (ColumnValues.bit true) z h =
      subst (λ y. IntCell (ColumnValues.bit true) y) (cc) set_cell
  wide_of-IntCell (ColumnValues.bit false) z h =
      subst (λ y. IntCell (ColumnValues.bit false) y) (cc) unset_cell
  wide_of-IntCell _ z h = cc

  IntCell-wide_of : {v : ColumnValues t} {z : ℤ} → IntCell v z → wide_of v ≡ some z
  unfolding wide_of
  IntCell-wide_of (tiny_cell n) = refl
  IntCell-wide_of (small_cell z) = refl
  IntCell-wide_of (int_cell z) = refl
  IntCell-wide_of (big_cell z) = refl
  IntCell-wide_of unset_cell = refl
  IntCell-wide_of set_cell = refl

  pub deserialize_int-fits :
      {V : Type 0} (visitor : Visit t → Result V) (ty : IntType) (cell : Cell t) (z : ℤ)
      → IntCell cell.val z
      → int_min ty ≤ℤ z
      → z ≤ℤ int_max ty
      → deserialize_int visitor ty cell ≡ visitor (Visit.int ty z)
  unfolding deserialize_int
  deserialize_int-fits visitor ty cell z held low high =
      rw (IntCell-wide_of held, try_from_wide_fits ty z low high) refl

  -- An integer hint shows its visitor a value and succeeds with what the visitor answers exactly if the
  -- cell holds an integer, or a bit, within the range of the hinted type; the visitor is then shown
  -- that integer, at that type.
  pub deserialize_int_lem :
      {V : Type 0} (visitor : Visit t → Result V) (ty : IntType) (cell : Cell t) (r : V)
      → (deserialize_int visitor ty cell ≡ ok r) ↔ (
          (z : ℤ) × IntCell cell.val z
          × (int_min ty ≤ℤ z)
          × (z ≤ℤ int_max ty)
          × (visitor (Visit.int ty z) ≡ ok r))
  unfolding deserialize_int
  deserialize_int_lem visitor ty cell r = (
    λ h.
        let (y, e, h') = >>=-ok (ok_or (wide_of cell.val) (unsupported_error (int_name ty))) _ h in
        let (z, e', answer) = >>=-ok (ok_or (try_from_wide ty y) _) _ h' in
        let (same, low, high) = try_from_wide-some ty y z (ok_or-ok (try_from_wide ty y) _ e') in
        let held = wide_of-IntCell cell.val y (ok_or-ok (wide_of cell.val) _ e) in
        (z, subst (λ x. IntCell cell.val x) (same) held, low, high, answer),
    λ held. deserialize_int-fits visitor ty cell held.0 held.1 held.2 held.3 ∙ held.4,
  )
