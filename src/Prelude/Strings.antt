-- ===== src/Prelude/Strings.antt =====
-- Rust text as the list of its code points, and what the crate does with it: equality,
-- ASCII-case-insensitive equality, prefixes and decimal printing.
use Prim.Native.Nat.{ℕ, zero, suc, ◌+◌, ◌-◌, ◌*◌, ◌/◌, ◌%◌, ◌<◌, ◌≤◌}
use Prim.Native.Char.{code}
use Prim.Native.String.{String}
use mathlib.Core.Path.{◌≡◌, refl, ap, sym, ◌∙◌}
use mathlib.Core.Logic.{◌↔◌, inl, inr}
use mathlib.Core.Bool.{Bool, true, false, ◌&&◌}
use mathlib.Core.List.{List, [], ◌∷◌, ◌++◌, map}
use native.Mathlib.Omega.{arith}
use mssql_tiberius_bridge.Prelude.Int.{ℤ, pos, negsuc}
use mssql_tiberius_bridge.Prelude.Tests.{ltb, leb, ◌==◌, if◌then◌else◌, Bool-cases}

abbrev pub Text : Type 0
Text = List ℕ

abbrev pub str : String → Text
str String.[] = []
str (String.◌∷◌ c s) = code c ∷ str s

pub text_eq : Text → Text → Bool
text_eq [] [] = true
text_eq [] (y ∷ t) = false
text_eq (x ∷ s) [] = false
text_eq (x ∷ s) (y ∷ t) = if x == y then text_eq s t else false

text_eq_sound : (s t : Text) → text_eq s t ≡ true → s ≡ t
unfolding text_eq
text_eq_sound [] [] h = refl
text_eq_sound [] (y ∷ t) h = cc
text_eq_sound (x ∷ s) [] h = cc
text_eq_sound (x ∷ s) (y ∷ t) h = ground (arith, text_eq_sound s t)

text_eq_refl : (s : Text) → text_eq s s ≡ true
unfolding text_eq
text_eq_refl [] = refl
text_eq_refl (x ∷ s) = ground (arith, text_eq_refl s)

pub text_eq_iff : (s t : Text) → (text_eq s t ≡ true) ↔ (s ≡ t)
text_eq_iff s t = (text_eq_sound s t, λ e. ap (text_eq s) (sym e) ∙ text_eq_refl s)

-- `char::to_ascii_lowercase` on one code point.
unfoldable pub ascii_lower : ℕ → ℕ
ascii_lower c = if leb b'A' c && leb c b'Z' then c + 32 else c

-- `str::eq_ignore_ascii_case`.
unfoldable pub eq_ignore_ascii_case : Text → Text → Bool
eq_ignore_ascii_case [] [] = true
eq_ignore_ascii_case [] (y ∷ t) = false
eq_ignore_ascii_case (x ∷ s) [] = false
eq_ignore_ascii_case (x ∷ s) (y ∷ t) =
    if ascii_lower x == ascii_lower y then eq_ignore_ascii_case s t else false

pub eq_ignore_ascii_case_refl : (s : Text) → eq_ignore_ascii_case s s ≡ true
unfolding eq_ignore_ascii_case
eq_ignore_ascii_case_refl [] = refl
eq_ignore_ascii_case_refl (x ∷ s) = ground (arith, eq_ignore_ascii_case_refl s)

pub eq_ignore_ascii_case-lower :
    (s t : Text) → eq_ignore_ascii_case s t ≡ true → map ascii_lower s ≡ map ascii_lower t
unfolding eq_ignore_ascii_case
eq_ignore_ascii_case-lower [] [] h = refl
eq_ignore_ascii_case-lower [] (y ∷ t) h = ground arith
eq_ignore_ascii_case-lower (x ∷ s) [] h = ground arith
eq_ignore_ascii_case-lower (x ∷ s) (y ∷ t) h = ground (arith, eq_ignore_ascii_case-lower s t)

-- `str::starts_with`.
unfoldable pub starts_with : Text → Text → Bool
starts_with s [] = true
starts_with [] (p ∷ ps) = false
starts_with (x ∷ s) (p ∷ ps) = if x == p then starts_with s ps else false

-- `u64::to_string`, on fuel that the number itself provides.
unfoldable decimal_digits : ℕ → ℕ → Text
decimal_digits zero n = []
decimal_digits (suc fuel) n =
    let front = decimal_digits fuel (n / 10) in
    if ltb n 10 then (b'0' + n) ∷ [] else front ++ (b'0' + n % 10) ∷ []

pub to_decimal : ℕ → Text
unfolding decimal_digits
to_decimal n = decimal_digits (suc n) n

-- `i64::to_string` and `i128::to_string`.
unfoldable pub int_to_decimal : ℤ → Text
int_to_decimal (pos n) = to_decimal n
int_to_decimal (negsuc n) = b'-' ∷ to_decimal (suc n)

-- The number that a digit string denotes.
unfoldable pub decimal_value : ℕ → Text → ℕ
decimal_value acc [] = acc
decimal_value acc (c ∷ s) = decimal_value (acc * 10 + (c - b'0')) s

decimal_value-append :
    (acc : ℕ) (s : Text) (c : ℕ)
    → decimal_value acc (s ++ c ∷ []) ≡ decimal_value acc s * 10 + (c - b'0')
unfolding decimal_value
decimal_value-append acc [] c = refl
decimal_value-append acc (x ∷ s) c = decimal_value-append (acc * 10 + (x - b'0')) s c

decimal_value-digits : (fuel n : ℕ) → n < fuel → decimal_value 0 (decimal_digits fuel n) ≡ n
unfolding decimal_digits
decimal_value-digits zero n h = elim h [ ]
decimal_value-digits (suc fuel) n h = elim (Bool-cases (ltb n 10)) [
  | inl small ↦ rw small (unfold decimal_value in omega arith)
  | inr large ↦
      rw (large, decimal_value-append 0 (decimal_digits fuel (n / 10)) (b'0' + n % 10))
        (omega (arith, decimal_value-digits fuel (n / 10) (ground arith)))
]

-- Printing loses nothing.
pub decimal_value-to_decimal : (n : ℕ) → decimal_value 0 (to_decimal n) ≡ n
unfolding to_decimal
decimal_value-to_decimal n = decimal_value-digits (suc n) n (omega arith)

pub to_decimal_injective : (m n : ℕ) → to_decimal m ≡ to_decimal n → m ≡ n
to_decimal_injective m n e =
    sym (decimal_value-to_decimal m) ∙ ap (decimal_value 0) e ∙ decimal_value-to_decimal n

-- Texts of decimal digits only.
abbrev pub Digits : Text → Type 0
Digits [] = Unit
Digits (c ∷ s) = (b'0' ≤ c) × (c ≤ b'9') × Digits s

pub append-Digits : (s t : Text) → Digits s → Digits t → Digits (s ++ t)
append-Digits [] t h k = k
append-Digits (c ∷ s) t h k = (h.0, h.1, append-Digits s t h.2 k)

decimal_digits-Digits : (fuel n : ℕ) → Digits (decimal_digits fuel n)
unfolding decimal_digits
decimal_digits-Digits zero n = tt
decimal_digits-Digits (suc fuel) n = elim (Bool-cases (ltb n 10)) [
  | inl small ↦ rw small (ground arith, ground arith, tt)
  | inr large ↦ rw large (
      append-Digits (decimal_digits fuel (n / 10)) _ (decimal_digits-Digits fuel (n / 10))
        (omega arith, omega arith, tt))
]

pub to_decimal-Digits : (n : ℕ) → Digits (to_decimal n)
unfolding to_decimal
to_decimal-Digits n = decimal_digits-Digits (suc n) n
