-- ===== src/Payloads.antt =====
-- What the conversions of dates, numbers and Arrow cells take of mssql-tds beside the payload types:
-- constructors, renderings and float arithmetic.
use mssql_tiberius_bridge.Prelude.{
  ℕ, ◌≤◌, ◌≡◌, Text, ℤ, List, [], ◌∷◌, leb, str, if◌then◌else◌, to_decimal, unsigned_abs, arith,
  length,
}
use mssql_tiberius_bridge.Driver.{Tds, SqlMoney, plain}
use mssql_tiberius_bridge.Error.{TdsError}
use mssql_tiberius_bridge.Task.{TdsResult, tds_ok, tds_err}

pub record Payloads (t : Tds) : Type 0 where
  -- `SqlDate::create` and `SqlDate::get_days`.
  pub create_date : ℕ → TdsResult t.SqlDate
  pub get_days : t.SqlDate → ℕ
  -- `DecimalParts::from_string` with a precision and a scale, and `Display`.
  pub decimal_from_string : Text → ℕ → ℕ → TdsResult t.DecimalParts
  pub decimal_to_string : t.DecimalParts → Text
  -- `f64::from(money)` of the driver, and `int_val as f64 / 10_000.0`.
  pub money_to_float : SqlMoney → TdsResult t.Float64
  pub small_money_to_float : ℤ → t.Float64
  pub float32_zero : t.Float32
  pub float64_zero : t.Float64
  -- `f64 as f32`, and the casts of an integer to a float.
  pub narrow : t.Float64 → t.Float32
  pub float32_of_int : ℤ → t.Float32
  pub float64_of_int : ℤ → t.Float64
  -- `Uuid`'s `Display` and bytes.
  pub uuid_to_string : t.Uuid → Text
  pub uuid_as_bytes : t.Uuid → List ℕ

-- The days of 0001-01-01 to 9999-12-31, counted from 0.
abbrev pub max_date : ℕ
max_date = 3652058

-- `SqlDate` documents that it holds the days it is created from, over its range and no other.
pub record DateLaws {t : Tds} (p : Payloads t) : Type 0 where
  pub days : (n : ℕ) (d : t.SqlDate) → p.create_date n ≡ tds_ok d → p.get_days d ≡ n
  pub range : (n : ℕ) (d : t.SqlDate) → p.create_date n ≡ tds_ok d → n ≤ max_date
  pub total : (n : ℕ) → n ≤ max_date → (d : t.SqlDate) × (p.create_date n ≡ tds_ok d)

abbrev plain_create_date : ℕ → TdsResult ℕ
plain_create_date n =
    if leb n max_date then tds_ok n else tds_err (TdsError.usage_error (str "date out of range"))

abbrev pub plain_payloads : Payloads plain
plain_payloads = record {
  create_date = plain_create_date;
  get_days = λ d. d;
  decimal_from_string = λ s precision scale. tds_ok (length s);
  decimal_to_string = λ d. to_decimal d;
  money_to_float = λ m. tds_ok (unsigned_abs (m.lsb_part));
  small_money_to_float = λ n. unsigned_abs n;
  float32_zero = 0;
  float64_zero = 0;
  narrow = λ x. x;
  float32_of_int = λ n. unsigned_abs n;
  float64_of_int = λ n. unsigned_abs n;
  uuid_to_string = λ u. to_decimal u;
  uuid_as_bytes = λ u. u ∷ [];
}

plain_create_date-days : (n d : ℕ) → plain_create_date n ≡ tds_ok d → d ≡ n
plain_create_date-days n d h = ground arith

plain_create_date-range : (n d : ℕ) → plain_create_date n ≡ tds_ok d → n ≤ max_date
plain_create_date-range n d h = ground arith

plain_create_date-total : (n : ℕ) → n ≤ max_date → (d : ℕ) × (plain_create_date n ≡ tds_ok d)
plain_create_date-total n h = (n, ground arith)

pub plain-DateLaws : DateLaws plain_payloads
plain-DateLaws = record {
  days = plain_create_date-days;
  range = plain_create_date-range;
  total = plain_create_date-total;
}
