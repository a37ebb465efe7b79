-- ===== src/Error.antt =====
-- src/error.rs: the crate's error type and its `Result`, with the `?` operator as `>>=`.
use mssql_tiberius_bridge.Prelude.{◌≡◌, refl, ℕ, Text, str, Option, none, some, ◌++◌, to_decimal}

-- The driver's errors that the crate constructs or matches by name, and the rest.
pub data TdsError : Type 0 where
  connection_closed : Text → TdsError
  protocol_error : Text → TdsError
  usage_error : Text → TdsError
  driver_error : ℕ → TdsError

pub data Error : Type 0 where
  tds : TdsError → Error
  column_not_found : Text → Error
  column_index_out_of_bounds : (index count : ℕ) → Error
  conversion : Text → Error
  bulk_input : Text → Error
  pool : Text → Error
  invalid_prepared_statement : Error

pub data Result {ℓ} (A : Type ℓ) : Type ℓ where
  ok : A → Result A
  err : Error → Result A

infixl 5 ◌>>=◌
abbrev pub ◌>>=◌ {ℓ κ} : {A : Type ℓ} {B : Type κ} → Result A → (A → Result B) → Result B
ok a >>= f = f a
err e >>= f = err e

-- `Option::ok_or`.
abbrev pub ok_or {ℓ} : {A : Type ℓ} → Option A → Error → Result A
ok_or none e = err e
ok_or (some a) e = ok a

-- `Result::ok().flatten()` and `Result::map`.
abbrev pub map_result {ℓ κ} : {A : Type ℓ} {B : Type κ} → (A → B) → Result A → Result B
map_result f (ok a) = ok (f a)
map_result f (err e) = err e

-- `Display`, over the driver's own rendering of its errors.
unfoldable pub display : (TdsError → Text) → Error → Text
display show (Error.tds e) = str "TDS error: " ++ show e
display show (Error.column_not_found name) = str "Column not found: " ++ name
display show (Error.column_index_out_of_bounds index count) =
    str "Column index "
    ++ (to_decimal index ++ (str " out of bounds (count: " ++ (to_decimal count ++ str ")")))
display show (Error.conversion msg) = str "Conversion error: " ++ msg
display show (Error.bulk_input msg) = str "BULK UPLOAD input failure: " ++ msg
display show (Error.pool msg) = str "Pool error: " ++ msg
display show Error.invalid_prepared_statement =
    str "Prepared statement belongs to a different or reset client session"

-- `source`: only a driver error has a cause.
unfoldable source : Error → Option TdsError
source (Error.tds e) = some e
source _ = none

-- `From<mssql_tds::error::Error>`.
unfoldable from_tds_error : TdsError → Error
from_tds_error e = Error.tds e

-- What a successful bind came from.
pub >>=-ok {ℓ κ} :
    {A : Type ℓ} {B : Type κ} (r : Result A) (f : A → Result B) {b : B}
    → (r >>= f) ≡ ok b
    → (a : A) × (r ≡ ok a) × (f a ≡ ok b)
>>=-ok (ok a) f h = (a, refl, h)
>>=-ok (err e) f h = cc

pub ok_or-ok {ℓ} : {A : Type ℓ} (o : Option A) (e : Error) {a : A} → ok_or o e ≡ ok a → o ≡ some a
ok_or-ok (some a) e h = cc
ok_or-ok none e h = cc
