-- ===== src/Decimal/Laws.antt =====
-- row.rs, `FromSql for Decimal`: the words of a MONEY cell; query.rs: the precision of a decimal.
use mssql_tiberius_bridge.Payloads.{Payloads}
use mssql_tiberius_bridge.Prelude.{
  some, ℕ, ◌+◌, ◌*◌, ◌/◌, ◌%◌, ◌^◌, ◌<◌, ◌≡◌, ap, ◌∙◌, true, ℤ, pos, negsuc, ◌+ℤ◌, signed,
  pattern_of, in_signed, scale_ℤ, arith,
}
use mssql_tiberius_bridge.Driver.{Tds, ColumnValues, SqlMoney}
use mssql_tiberius_bridge.Decimal.{DecimalCrate, raw_money, from_sql_decimal}

-- The words of a 64-bit number: the high one with a sign, and the low one read as a signed word.
abbrev pub words_of : ℤ → SqlMoney
words_of z = record {
  lsb_part = signed 32 (pattern_of 64 z % 2 ^ 32);
  msb_part = signed 32 (pattern_of 64 z / 2 ^ 32);
}

pattern_of-signed : (r : ℕ) → r < 2 ^ 32 → pattern_of 32 (signed 32 r) ≡ r
pattern_of-signed r h = ground arith

high_and_low :
    (hi lo : ℕ)
    → hi < 2 ^ 32
    → lo < 2 ^ 32
    → scale_ℤ (signed 32 hi) (2 ^ 32) +ℤ pos lo ≡ signed 64 (hi * 2 ^ 32 + lo)
unfolding ◌+ℤ◌
high_and_low hi lo h l = ground arith

signed-pattern_of : (z : ℤ) → in_signed 64 z ≡ true → signed 64 (pattern_of 64 z) ≡ z
signed-pattern_of (pos n) h = ground arith
signed-pattern_of (negsuc n) h = ground arith

pattern_of-lt : (z : ℤ) → pattern_of 64 z < 2 ^ 64
pattern_of-lt (pos n) = ground arith
pattern_of-lt (negsuc n) = ground arith

raw_money-words_of : (z : ℤ) → in_signed 64 z ≡ true → raw_money (words_of z) ≡ z
unfolding raw_money
raw_money-words_of z h =
    let r = pattern_of 64 z in
    let bound = pattern_of-lt z in
    ap (λ lo. scale_ℤ (signed 32 (r / 2 ^ 32)) (2 ^ 32) +ℤ pos lo)
      (pattern_of-signed (r % 2 ^ 32) (omega arith))
    ∙ high_and_low (r / 2 ^ 32) (r % 2 ^ 32) (omega arith) (omega arith)
    ∙ ap (signed 64) (omega arith)
    ∙ signed-pattern_of z h

-- A MONEY cell that holds the two words of a 64-bit number is read as that number of ten-thousandths,
-- for every such number: the low word is taken without its sign, also where its sign bit is set, and
-- the high word with its sign.
pub from_sql_decimal-money :
    {t : Tds} (p : Payloads t) (r : DecimalCrate) (z : ℤ)
    → in_signed 64 z ≡ true
    → from_sql_decimal p r (ColumnValues.money (words_of z)) ≡ some (r.new z 4)
unfolding from_sql_decimal
from_sql_decimal-money p r z h = ap (λ raw. some (r.new raw 4)) (raw_money-words_of z h)
