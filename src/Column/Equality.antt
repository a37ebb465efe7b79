-- ===== src/Column/Equality.antt =====
-- column.rs: the derived equality of `ColumnType`, which compares discriminants.
use mssql_tiberius_bridge.Prelude.{
  ℕ, ◌≡◌, ◌↔◌, refl, sym, ap, ◌∙◌, Bool, true, ◌==◌, ==_iff, List, [], ◌∷◌, unwrap_or, get_elem?,
}
use mssql_tiberius_bridge.Column.{ColumnType}

-- The position of a variant in the enumeration.
unfoldable pub discriminant : ColumnType → ℕ
discriminant ColumnType.null = 0
discriminant ColumnType.bit = 1
discriminant ColumnType.int1 = 2
discriminant ColumnType.int2 = 3
discriminant ColumnType.int4 = 4
discriminant ColumnType.int8 = 5
discriminant ColumnType.float4 = 6
discriminant ColumnType.float8 = 7
discriminant ColumnType.datetime = 8
discriminant ColumnType.datetime2 = 9
discriminant ColumnType.datetime4 = 10
discriminant ColumnType.datetime_offset = 11
discriminant ColumnType.date = 12
discriminant ColumnType.time = 13
discriminant ColumnType.decimaln = 14
discriminant ColumnType.numericn = 15
discriminant ColumnType.money = 16
discriminant ColumnType.money4 = 17
discriminant ColumnType.guid = 18
discriminant ColumnType.n_varchar = 19
discriminant ColumnType.varchar = 20
discriminant ColumnType.n_char = 21
discriminant ColumnType.char = 22
discriminant ColumnType.n_text = 23
discriminant ColumnType.text = 24
discriminant ColumnType.binary = 25
discriminant ColumnType.var_binary = 26
discriminant ColumnType.image = 27
discriminant ColumnType.xml = 28
discriminant ColumnType.json = 29
discriminant ColumnType.vector = 30
discriminant ColumnType.big_var_bin = 31
discriminant ColumnType.ssvariant = 32
discriminant ColumnType.geography = 33
discriminant ColumnType.geometry = 34
discriminant ColumnType.udt = 35

-- `PartialEq for ColumnType`.
unfoldable pub column_type_eq : ColumnType → ColumnType → Bool
unfolding discriminant
column_type_eq a b = discriminant a == discriminant b

abbrev variants : List ColumnType
variants =
    ColumnType.null ∷ ColumnType.bit ∷ ColumnType.int1 ∷ ColumnType.int2 ∷ ColumnType.int4
    ∷ ColumnType.int8 ∷ ColumnType.float4 ∷ ColumnType.float8 ∷ ColumnType.datetime
    ∷ ColumnType.datetime2 ∷ ColumnType.datetime4 ∷ ColumnType.datetime_offset ∷ ColumnType.date
    ∷ ColumnType.time ∷ ColumnType.decimaln ∷ ColumnType.numericn ∷ ColumnType.money
    ∷ ColumnType.money4 ∷ ColumnType.guid ∷ ColumnType.n_varchar ∷ ColumnType.varchar
    ∷ ColumnType.n_char ∷ ColumnType.char ∷ ColumnType.n_text ∷ ColumnType.text ∷ ColumnType.binary
    ∷ ColumnType.var_binary ∷ ColumnType.image ∷ ColumnType.xml ∷ ColumnType.json
    ∷ ColumnType.vector ∷ ColumnType.big_var_bin ∷ ColumnType.ssvariant ∷ ColumnType.geography
    ∷ ColumnType.geometry ∷ ColumnType.udt ∷ []

variants-discriminant :
    (a : ColumnType) → unwrap_or ColumnType.null (get_elem? variants (discriminant a)) ≡ a
unfolding discriminant
variants-discriminant ColumnType.null = refl
variants-discriminant ColumnType.bit = refl
variants-discriminant ColumnType.int1 = refl
variants-discriminant ColumnType.int2 = refl
variants-discriminant ColumnType.int4 = refl
variants-discriminant ColumnType.int8 = refl
variants-discriminant ColumnType.float4 = refl
variants-discriminant ColumnType.float8 = refl
variants-discriminant ColumnType.datetime = refl
variants-discriminant ColumnType.datetime2 = refl
variants-discriminant ColumnType.datetime4 = refl
variants-discriminant ColumnType.datetime_offset = refl
variants-discriminant ColumnType.date = refl
variants-discriminant ColumnType.time = refl
variants-discriminant ColumnType.decimaln = refl
variants-discriminant ColumnType.numericn = refl
variants-discriminant ColumnType.money = refl
variants-discriminant ColumnType.money4 = refl
variants-discriminant ColumnType.guid = refl
variants-discriminant ColumnType.n_varchar = refl
variants-discriminant ColumnType.varchar = refl
variants-discriminant ColumnType.n_char = refl
variants-discriminant ColumnType.char = refl
variants-discriminant ColumnType.n_text = refl
variants-discriminant ColumnType.text = refl
variants-discriminant ColumnType.binary = refl
variants-discriminant ColumnType.var_binary = refl
variants-discriminant ColumnType.image = refl
variants-discriminant ColumnType.xml = refl
variants-discriminant ColumnType.json = refl
variants-discriminant ColumnType.vector = refl
variants-discriminant ColumnType.big_var_bin = refl
variants-discriminant ColumnType.ssvariant = refl
variants-discriminant ColumnType.geography = refl
variants-discriminant ColumnType.geometry = refl
variants-discriminant ColumnType.udt = refl

-- The variants have different discriminants.
pub column_type_eq_lem : (a b : ColumnType) → (column_type_eq a b ≡ true) ↔ (a ≡ b)
unfolding column_type_eq
column_type_eq_lem a b = (
  (λ e.
      sym (variants-discriminant a)
      ∙ ap (λ i. unwrap_or ColumnType.null (get_elem? variants i))
          ((==_iff (discriminant a) (discriminant b)).0 e)
      ∙ variants-discriminant b),
  λ e. (==_iff (discriminant a) (discriminant b)).1 (ap discriminant e),
)
