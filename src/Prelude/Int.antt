-- ===== src/Prelude/Int.antt =====
-- Signed machine integers stand for their values: `negsuc n` is -(n + 1). The casts and the
-- arithmetic of the machine types are written out with their wrap-around, check or saturation.
use Prim.Native.Nat.{ℕ, suc, ◌+◌, ◌-◌, ◌*◌, ◌/◌, ◌%◌, ◌^◌, ◌≤◌, ◌<◌}
use mathlib.Core.Path.{◌≡◌}
use mathlib.Core.Bool.{Bool, ◌&&◌}
use mathlib.Core.Option.{Option, none, some}
use native.Mathlib.Omega.{arith}
use mssql_tiberius_bridge.Prelude.Tests.{ltb, leb, if◌then◌else◌}

pub data ℤ : Type 0 where
  pos : ℕ → ℤ
  negsuc : ℕ → ℤ

abbrev pub pos_part : ℤ → ℕ
pos_part (pos n) = n
pos_part (negsuc n) = 0

abbrev pub neg_part : ℤ → ℕ
neg_part (pos n) = 0
neg_part (negsuc n) = suc n

abbrev pub sub_ℕ : ℕ → ℕ → ℤ
sub_ℕ a b = if leb b a then pos (a - b) else negsuc (b - a - 1)

infixl 65 ◌+ℤ◌
infix 50 ◌≤ℤ◌
unfoldable pub ◌+ℤ◌ : ℤ → ℤ → ℤ
a +ℤ b = sub_ℕ (pos_part a + pos_part b) (neg_part a + neg_part b)

abbrev pub ◌≤ℤ◌ : ℤ → ℤ → Type 0
a ≤ℤ b = pos_part a + neg_part b ≤ pos_part b + neg_part a

abbrev pub leb_ℤ : ℤ → ℤ → Bool
leb_ℤ a b = leb (pos_part a + neg_part b) (pos_part b + neg_part a)

-- A product with a number.
abbrev pub scale_ℤ : ℤ → ℕ → ℤ
scale_ℤ (pos n) k = pos (n * k)
scale_ℤ (negsuc n) k = sub_ℕ 0 (suc n * k)

-- `i64::div_euclid` and `i64::rem_euclid` by a positive number.
abbrev pub div_euclid : ℤ → ℕ → ℤ
div_euclid (pos n) d = pos (n / d)
div_euclid (negsuc n) d = negsuc (n / d)

-- `/` on a signed type rounds towards zero.
abbrev pub quot : ℤ → ℕ → ℤ
quot (pos n) d = pos (n / d)
quot (negsuc n) d = sub_ℕ 0 (suc n / d)

abbrev pub rem_euclid : ℤ → ℕ → ℕ
rem_euclid (pos n) d = n % d
rem_euclid (negsuc n) d = d - 1 - n % d

-- `unsigned_abs`.
abbrev pub unsigned_abs : ℤ → ℕ
unsigned_abs (pos n) = n
unsigned_abs (negsuc n) = suc n

-- The value of a two's complement pattern of w bits, and the pattern of a value: an `as` cast to a
-- signed type is one after the other.
abbrev pub signed : ℕ → ℕ → ℤ
signed w r = if ltb r (2 ^ (w - 1)) then pos r else negsuc (2 ^ w - 1 - r)

abbrev pub pattern_of : ℕ → ℤ → ℕ
pattern_of w (pos n) = n % 2 ^ w
pattern_of w (negsuc n) = 2 ^ w - 1 - n % 2 ^ w

-- `as i32`, `as i16`, `as u32`.
unfoldable pub as_i32 : ℤ → ℤ
as_i32 z = signed 32 (pattern_of 32 z)

unfoldable pub as_i16 : ℤ → ℤ
as_i16 z = signed 16 (pattern_of 16 z)

-- The range of a signed type of w bits.
abbrev pub in_signed : ℕ → ℤ → Bool
in_signed w z = leb_ℤ (negsuc (2 ^ (w - 1) - 1)) z && leb_ℤ z (pos (2 ^ (w - 1) - 1))

-- `i32::checked_add`, `i64::checked_add`.
unfoldable pub checked_add : ℕ → ℤ → ℤ → Option ℤ
unfolding ◌+ℤ◌
checked_add w a b = if in_signed w (a +ℤ b) then some (a +ℤ b) else none

-- `i64::saturating_mul` by a number.
unfoldable pub saturating_mul : ℤ → ℕ → ℤ
saturating_mul a k =
    let product = scale_ℤ a k in
    if leb_ℤ product (pos (2 ^ 63 - 1))
    then (if leb_ℤ (negsuc (2 ^ 63 - 1)) product then product else negsuc (2 ^ 63 - 1))
    else pos (2 ^ 63 - 1)

-- `u32::try_from`, `u64::try_from` on a signed value.
abbrev pub try_unsigned : ℕ → ℤ → Option ℕ
try_unsigned w (pos n) = if ltb n (2 ^ w) then some n else none
try_unsigned w (negsuc n) = none

pub +ℤ_parts :
    (a b : ℤ)
    → pos_part (a +ℤ b) + neg_part a + neg_part b ≡ neg_part (a +ℤ b) + pos_part a + pos_part b
unfolding ◌+ℤ◌
+ℤ_parts a b = ground arith

pub eq_of_parts : (a b : ℤ) → pos_part a + neg_part b ≡ pos_part b + neg_part a → a ≡ b
eq_of_parts a b h = ground arith

pub rem_euclid-lt : (z : ℤ) (d : ℕ) → 0 < d → rem_euclid z d < d
rem_euclid-lt (pos n) d h = grind arith
rem_euclid-lt (negsuc n) d h = grind arith
