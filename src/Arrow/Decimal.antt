-- ===== src/Arrow/Decimal.antt =====
-- src/bulk_arrow.rs, `format_decimal128`: a coefficient and a scale as a decimal text, and that the
-- text denotes the coefficient at that scale.
use mssql_tiberius_bridge.Prelude.{
  ℕ, zero, suc, ◌+◌, ◌-◌, ◌*◌, ◌≡◌, ◌≢◌, refl, ltb→lt, sub_ℕ, length-append, ap, ◌∙◌, Text, str, [],
  ◌∷◌, ◌++◌, ℤ, pos, negsuc, take, drop, replicate, length, ltb, ◌==◌, if◌then◌else◌, to_decimal,
  int_to_decimal, arith, Bool-cases, inl, inr, decimal_value, length-drop, take-append-drop,
  decimal_value-to_decimal, length-replicate, Digits, to_decimal-Digits,
}

-- The digits of a magnitude with a point before the last `scale`.
pub place_point : ℕ → Text → Text
place_point scale mag_s =
    if ltb scale (length mag_s)
    then take (length mag_s - scale) mag_s ++ b'.' ∷ drop (length mag_s - scale) mag_s
    else str "0." ++ (replicate (scale - length mag_s) b'0' ++ mag_s)

pub format_decimal128 : ℤ → ℤ → Text
unfolding place_point
format_decimal128 raw (negsuc n) = int_to_decimal raw ++ replicate (suc n) b'0'
format_decimal128 raw (pos zero) = int_to_decimal raw
format_decimal128 (pos n) (pos (suc scale)) = place_point (suc scale) (to_decimal n)
format_decimal128 (negsuc n) (pos (suc scale)) = b'-' ∷ place_point (suc scale) (to_decimal (suc n))

-- A reader of decimal texts: the digits with the point left out, and how many stand behind it.
read_unsigned : ℕ → Text → ℕ × ℕ
unfolding decimal_value
read_unsigned acc [] = (acc, 0)
read_unsigned acc (c ∷ s) =
    if c == b'.' then (decimal_value acc s, length s) else read_unsigned (acc * 10 + (c - b'0')) s

unfoldable pub read_decimal : Text → ℤ × ℕ
unfolding read_unsigned
read_decimal [] = (pos 0, 0)
read_decimal (c ∷ s) =
    if c == b'-'
    then (sub_ℕ 0 (read_unsigned 0 s).0, (read_unsigned 0 s).1)
    else (pos (read_unsigned 0 (c ∷ s)).0, (read_unsigned 0 (c ∷ s)).1)

read_unsigned-point :
    (acc : ℕ) (ds fs : Text)
    → Digits ds
    → read_unsigned acc (ds ++ b'.' ∷ fs) ≡ (decimal_value acc (ds ++ fs), length fs)
unfolding read_unsigned decimal_value
read_unsigned-point acc [] fs h = refl
read_unsigned-point acc (c ∷ ds) fs h =
    ground (arith, read_unsigned-point (acc * 10 + (c - b'0')) ds fs h.2)

read_unsigned_whole :
    (acc : ℕ) (ds : Text) → Digits ds → read_unsigned acc ds ≡ (decimal_value acc ds, 0)
unfolding read_unsigned decimal_value
read_unsigned_whole acc [] h = refl
read_unsigned_whole acc (c ∷ ds) h =
    ground (arith, read_unsigned_whole (acc * 10 + (c - b'0')) ds h.2)

take-Digits : (n : ℕ) (s : Text) → Digits s → Digits (take n s)
take-Digits zero s h = tt
take-Digits (suc n) [] h = tt
take-Digits (suc n) (c ∷ s) h = (h.0, h.1, take-Digits n s h.2)

decimal_value-zeros :
    (k : ℕ) (s : Text) → decimal_value 0 (replicate k b'0' ++ s) ≡ decimal_value 0 s
unfolding decimal_value
decimal_value-zeros zero s = refl
decimal_value-zeros (suc k) s = decimal_value-zeros k s

read_unsigned-place_point :
    (scale : ℕ) (mag_s : Text)
    → Digits mag_s
    → read_unsigned 0 (place_point scale mag_s) ≡ (decimal_value 0 mag_s, scale)
unfolding place_point
read_unsigned-place_point scale mag_s h = elim (Bool-cases (ltb scale (length mag_s))) [
  | inl long ↦
      let split = length mag_s - scale in
      let behind : length (drop split mag_s) ≡ scale =
        omega (arith, length-drop split mag_s, ltb→lt scale (length mag_s) long) in
      rw long (
        read_unsigned-point 0 (take split mag_s) (drop split mag_s) (take-Digits split mag_s h)
        ∙ ap (λ s. (decimal_value 0 s, length (drop split mag_s))) (take-append-drop split mag_s)
        ∙ ap (λ n. (decimal_value 0 mag_s, n)) behind)
  | inr short ↦
      let zeros : Text = replicate (scale - length mag_s) b'0' in
      let behind : length (zeros ++ mag_s) ≡ scale =
        ground (
          arith,
          length-append zeros mag_s,
          length-replicate {A = ℕ} (scale - length mag_s) b'0',
        ) in
      rw short (
        read_unsigned-point 0 (str "0") (zeros ++ mag_s) (omega arith)
        ∙ ap (λ v. (v, length (zeros ++ mag_s)))
            (decimal_value-zeros (suc (scale - length mag_s)) mag_s)
        ∙ ap (λ n. (decimal_value 0 mag_s, n)) behind)
]

-- Texts that do not begin with a sign.
abbrev Unsigned : Text → Type 0
Unsigned [] = Unit
Unsigned (c ∷ s) = c ≢ b'-'

point-Unsigned : (ds s : Text) → Digits ds → Unsigned (ds ++ b'.' ∷ s)
point-Unsigned [] s h = λ e. absurd (omega arith)
point-Unsigned (c ∷ ds) s h = λ e. absurd (omega arith)

place_point-Unsigned :
    (scale : ℕ) (mag_s : Text) → Digits mag_s → Unsigned (place_point scale mag_s)
unfolding place_point
place_point-Unsigned scale mag_s h = elim (Bool-cases (ltb scale (length mag_s))) [
  | inl long ↦ rw long (
      point-Unsigned (take (length mag_s - scale) mag_s) _
        (take-Digits (length mag_s - scale) mag_s h))
  | inr short ↦ rw short (λ e. absurd (omega arith))
]

Digits-Unsigned : (s : Text) → Digits s → Unsigned s
Digits-Unsigned [] h = tt
Digits-Unsigned (c ∷ s) h = λ e. absurd (omega arith)

read_decimal-Unsigned :
    (s : Text) {v : ℕ} {digits : ℕ}
    → Unsigned s
    → read_unsigned 0 s ≡ (v, digits)
    → read_decimal s ≡ (pos v, digits)
unfolding read_decimal read_unsigned
read_decimal-Unsigned [] h e = ground arith
read_decimal-Unsigned (c ∷ s) h e = ground arith

read_decimal-minus :
    (s : Text) {n : ℕ} {digits : ℕ}
    → read_unsigned 0 s ≡ (suc n, digits)
    → read_decimal (b'-' ∷ s) ≡ (negsuc n, digits)
unfolding read_decimal
read_decimal-minus s e = rw e (ground arith)

read_unsigned-to_decimal : (n : ℕ) → read_unsigned 0 (to_decimal n) ≡ (n, 0)
read_unsigned-to_decimal n =
    read_unsigned_whole 0 (to_decimal n) (to_decimal-Digits n)
    ∙ ap (λ v. (v, 0)) (decimal_value-to_decimal n)

read_unsigned-magnitude :
    (scale n : ℕ) → read_unsigned 0 (place_point scale (to_decimal n)) ≡ (n, scale)
read_unsigned-magnitude scale n =
    read_unsigned-place_point scale (to_decimal n) (to_decimal-Digits n)
    ∙ ap (λ v. (v, scale)) (decimal_value-to_decimal n)

-- The text of a coefficient at a scale denotes that coefficient with as many digits behind the point
-- as the scale says, for coefficients of either sign and scales of zero and more.
pub read_decimal-format_decimal128 :
    (raw : ℤ) (scale : ℕ) → read_decimal (format_decimal128 raw (pos scale)) ≡ (raw, scale)
unfolding format_decimal128 int_to_decimal
read_decimal-format_decimal128 (pos n) zero =
    read_decimal-Unsigned (to_decimal n) (Digits-Unsigned _ (to_decimal-Digits n))
      (read_unsigned-to_decimal n)
read_decimal-format_decimal128 (negsuc n) zero =
    read_decimal-minus (to_decimal (suc n)) (read_unsigned-to_decimal (suc n))
read_decimal-format_decimal128 (pos n) (suc scale) =
    read_decimal-Unsigned (place_point (suc scale) (to_decimal n))
      (place_point-Unsigned (suc scale) (to_decimal n) (to_decimal-Digits n))
      (read_unsigned-magnitude (suc scale) n)
read_decimal-format_decimal128 (negsuc n) (suc scale) =
    read_decimal-minus (place_point (suc scale) (to_decimal (suc n)))
      (read_unsigned-magnitude (suc scale) (suc n))
