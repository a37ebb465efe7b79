-- ===== src/Decimal.antt =====
-- src/query.rs and src/row.rs: the decimals of rust_decimal, and MONEY cells as decimals.
pub mod Laws
use mssql_tiberius_bridge.Prelude.{
  ℕ, zero, suc, ◌+◌, ◌-◌, ◌^◌, ◌%◌, max, Text, Option, none, some, unwrap_or, ℤ, pos, ◌+ℤ◌, length,
  to_decimal, pattern_of, scale_ℤ, unsigned_abs,
}
use mssql_tiberius_bridge.Driver.{Tds, ColumnValues, SqlType, SqlMoney}
use mssql_tiberius_bridge.Task.{TdsResult, tds_ok, tds_err}
use mssql_tiberius_bridge.Payloads.{Payloads}

-- The crate rust_decimal: a decimal is its mantissa over a power of ten.
pub record DecimalCrate : Type 1 where
  pub Decimal : Type 0
  -- `Decimal::new`, `Display` and `FromStr`.
  pub new : ℤ → ℕ → Decimal
  pub to_string : Decimal → Text
  pub parse : Text → Option Decimal
  pub mantissa : Decimal → ℤ
  pub scale : Decimal → ℕ

-- `u128::checked_ilog10`.
unfoldable pub checked_ilog10 : ℕ → Option ℕ
checked_ilog10 zero = none
checked_ilog10 (suc n) = some (length (to_decimal (suc n)) - 1)

-- The 64 bits of a MONEY cell; the low word has no sign, and the words share no bit, so that `|` is
-- a sum.
unfoldable pub raw_money : SqlMoney → ℤ
unfolding ◌+ℤ◌
raw_money m = let low_bits = pattern_of 32 m.lsb_part in scale_ℤ m.msb_part (2 ^ 32) +ℤ pos low_bits

module _ {t : Tds} (p : Payloads t) where
  -- `decimal_to_sql_type`: the given precision, then the largest, then NULL.
  unfoldable pub decimal_to_sql_type : Text → ℕ → ℕ → SqlType t
  decimal_to_sql_type decimal_str precision scale =
      elim (p.decimal_from_string decimal_str precision scale) [
        | tds_ok dp ↦ SqlType.numeric (some dp)
        | tds_err _ ↦ elim (p.decimal_from_string decimal_str 38 scale) [
          | tds_ok dp ↦ SqlType.numeric (some dp)
          | tds_err _ ↦ SqlType.numeric none
        ]
      ]

  module _ (r : DecimalCrate) where
    -- The precision that `Decimal::to_sql` asks for.
    unfoldable pub decimal_precision : r.Decimal → ℕ
    unfolding checked_ilog10
    decimal_precision d =
        let scale = r.scale d % 2 ^ 8 in
        let digits = unwrap_or 0 (checked_ilog10 (unsigned_abs (r.mantissa d))) + 1 in
        max digits scale

    -- `ToSql for Decimal`.
    unfoldable pub decimal_to_sql : r.Decimal → SqlType t
    unfolding decimal_to_sql_type decimal_precision
    decimal_to_sql d = decimal_to_sql_type (r.to_string d) (decimal_precision d) (r.scale d % 2 ^ 8)

    -- `FromSql for Decimal`.
    unfoldable pub from_sql_decimal : ColumnValues t → Option r.Decimal
    unfolding raw_money
    from_sql_decimal (ColumnValues.decimal d) = r.parse (p.decimal_to_string d)
    from_sql_decimal (ColumnValues.numeric d) = r.parse (p.decimal_to_string d)
    from_sql_decimal (ColumnValues.small_money m) = some (r.new m.int_val 4)
    from_sql_decimal (ColumnValues.money m) = some (r.new (raw_money m) 4)
    from_sql_decimal _ = none
