-- ===== src/Arrow/Cell.antt =====
-- src/bulk_arrow.rs, `arrow_value_to_column_value`: one cell of an Arrow array as a cell of the
-- driver. A unit, data type or integer error is named in the messages without its rendering.
use mssql_tiberius_bridge.Prelude.{
  ℕ, ◌*◌, ◌^◌, Bool, true, false, Text, str, Option, none, some, List, [], ◌++◌, ℤ, pos,
  checked_add, saturating_mul, try_unsigned, div_euclid, rem_euclid, ltb, leb, if◌then◌else◌,
  to_decimal, int_to_decimal,
}
use mssql_tiberius_bridge.Driver.{Tds, ColumnValues}
use mssql_tiberius_bridge.Error.{Error, TdsError, Result, ok, err, ok_or, ◌>>=◌}
use mssql_tiberius_bridge.Task.{map_err}
use mssql_tiberius_bridge.Payloads.{Payloads}
use mssql_tiberius_bridge.Arrow.{Array, ArrayValues, DataType, TimeUnit}
use mssql_tiberius_bridge.Arrow.Decimal.{format_decimal128}

-- Days from 0001-01-01 to 1970-01-01.
abbrev pub arrow_epoch_offset_days : ℕ
arrow_epoch_offset_days = 719162

abbrev pub nanos_per_day : ℕ
nanos_per_day = 86400 * 1000000000

abbrev pub usage : Text → Error
usage msg = Error.tds (TdsError.usage_error msg)

-- `downcast`, over what the array is found to be.
abbrev pub downcast {ℓ} : {A : Type ℓ} → Text → Option A → Result A
downcast label found =
    ok_or found (usage (str "internal: failed to downcast Arrow array as " ++ label))

abbrev same_unit : TimeUnit → TimeUnit → Bool
same_unit TimeUnit.second TimeUnit.second = true
same_unit TimeUnit.millisecond TimeUnit.millisecond = true
same_unit TimeUnit.microsecond TimeUnit.microsecond = true
same_unit TimeUnit.nanosecond TimeUnit.nanosecond = true
same_unit _ _ = false

module _ {t : Tds} where
  -- `as_any().downcast_ref::<T>()` for each array type.
  abbrev as_boolean : ArrayValues t → Option (ℕ → Bool)
  as_boolean (ArrayValues.boolean a) = some a
  as_boolean _ = none

  abbrev as_int8 : ArrayValues t → Option (ℕ → ℤ)
  as_int8 (ArrayValues.int8 a) = some a
  as_int8 _ = none

  abbrev as_int16 : ArrayValues t → Option (ℕ → ℤ)
  as_int16 (ArrayValues.int16 a) = some a
  as_int16 _ = none

  abbrev as_int32 : ArrayValues t → Option (ℕ → ℤ)
  as_int32 (ArrayValues.int32 a) = some a
  as_int32 _ = none

  abbrev as_int64 : ArrayValues t → Option (ℕ → ℤ)
  as_int64 (ArrayValues.int64 a) = some a
  as_int64 _ = none

  abbrev as_uint8 : ArrayValues t → Option (ℕ → ℕ)
  as_uint8 (ArrayValues.uint8 a) = some a
  as_uint8 _ = none

  abbrev as_uint16 : ArrayValues t → Option (ℕ → ℕ)
  as_uint16 (ArrayValues.uint16 a) = some a
  as_uint16 _ = none

  abbrev as_uint32 : ArrayValues t → Option (ℕ → ℕ)
  as_uint32 (ArrayValues.uint32 a) = some a
  as_uint32 _ = none

  abbrev as_float32 : ArrayValues t → Option (ℕ → t.Float32)
  as_float32 (ArrayValues.float32 a) = some a
  as_float32 _ = none

  abbrev as_float64 : ArrayValues t → Option (ℕ → t.Float64)
  as_float64 (ArrayValues.float64 a) = some a
  as_float64 _ = none

  abbrev as_string : ArrayValues t → Option (ℕ → Text)
  as_string (ArrayValues.string a) = some a
  as_string _ = none

  abbrev as_large_string : ArrayValues t → Option (ℕ → Text)
  as_large_string (ArrayValues.large_string a) = some a
  as_large_string _ = none

  abbrev as_binary : ArrayValues t → Option (ℕ → List ℕ)
  as_binary (ArrayValues.binary a) = some a
  as_binary _ = none

  abbrev as_large_binary : ArrayValues t → Option (ℕ → List ℕ)
  as_large_binary (ArrayValues.large_binary a) = some a
  as_large_binary _ = none

  abbrev as_fixed_size_binary : ArrayValues t → Option (ℕ → List ℕ)
  as_fixed_size_binary (ArrayValues.fixed_size_binary a) = some a
  as_fixed_size_binary _ = none

  abbrev pub as_date32 : ArrayValues t → Option (ℕ → ℤ)
  as_date32 (ArrayValues.date32 a) = some a
  as_date32 _ = none

  abbrev pub as_time64 : TimeUnit → ArrayValues t → Option (ℕ → ℤ)
  as_time64 unit (ArrayValues.time64 u a) = if same_unit unit u then some a else none
  as_time64 unit _ = none

  abbrev pub as_timestamp : TimeUnit → ArrayValues t → Option (ℕ → ℤ)
  as_timestamp unit (ArrayValues.timestamp u a) = if same_unit unit u then some a else none
  as_timestamp unit _ = none

  abbrev pub as_decimal128 : ArrayValues t → Option (ℕ → ℤ)
  as_decimal128 (ArrayValues.decimal128 a) = some a
  as_decimal128 _ = none

-- `u64::checked_mul` by a number.
unfoldable pub checked_mul_u64 : ℕ → ℕ → Option ℕ
checked_mul_u64 n k = if ltb (n * k) (2 ^ 64) then some (n * k) else none

-- `u64::try_from` on the value of a time.
unfoldable pub time_nanos : ℤ → Result ℕ
time_nanos value = ok_or (try_unsigned 64 value) (usage (str "Time64 value must not be negative"))

module _ {t : Tds} where
  -- The nanoseconds since midnight of a `Time64` cell.
  unfoldable pub time64_nanos : TimeUnit → ArrayValues t → ℕ → Result ℕ
  unfolding checked_mul_u64 time_nanos
  time64_nanos TimeUnit.microsecond values idx = do
    a ← downcast (str "Time64(µs)") (as_time64 TimeUnit.microsecond values)
    micros ← time_nanos (a idx)
    ok_or (checked_mul_u64 micros 1000) (usage (str "Time64 overflow translating to TDS TIME"))
  time64_nanos TimeUnit.nanosecond values idx = do
    a ← downcast (str "Time64(ns)") (as_time64 TimeUnit.nanosecond values)
    time_nanos (a idx)
  time64_nanos TimeUnit.second values idx = err (usage (str "Time64 unsupported time unit"))
  time64_nanos TimeUnit.millisecond values idx = err (usage (str "Time64 unsupported time unit"))

  -- A time of less than one day.
  unfoldable pub time64_cell : ℕ → Result (ColumnValues t)
  time64_cell nanos =
      if leb nanos_per_day nanos
      then err (usage (str "Time64 value must be less than one day"))
      else ok
          (ColumnValues.time (record { time_nanoseconds = nanos; scale = t.default_vartime_scale }))

  -- The nanoseconds since 1970 of a `Timestamp` cell.
  unfoldable pub timestamp_nanos : TimeUnit → ArrayValues t → ℕ → Result ℤ
  unfolding saturating_mul
  timestamp_nanos TimeUnit.second values idx = do
    a ← downcast (str "Timestamp(s)") (as_timestamp TimeUnit.second values)
    ok (saturating_mul (a idx) 1000000000)
  timestamp_nanos TimeUnit.millisecond values idx = do
    a ← downcast (str "Timestamp(ms)") (as_timestamp TimeUnit.millisecond values)
    ok (saturating_mul (a idx) 1000000)
  timestamp_nanos TimeUnit.microsecond values idx = do
    a ← downcast (str "Timestamp(µs)") (as_timestamp TimeUnit.microsecond values)
    ok (saturating_mul (a idx) 1000)
  timestamp_nanos TimeUnit.nanosecond values idx = do
    a ← downcast (str "Timestamp(ns)") (as_timestamp TimeUnit.nanosecond values)
    ok (a idx)

  -- The split into days since 0001-01-01 and nanoseconds of the day.
  unfoldable pub timestamp_cell : ℤ → Result (ColumnValues t)
  unfolding checked_add
  timestamp_cell nanos_since_unix = do
    intraday ←
        ok_or (try_unsigned 64 (pos (rem_euclid nanos_since_unix nanos_per_day)))
          (usage (str "Timestamp has invalid intraday nanoseconds"))
    days_tds ←
        ok_or
          (checked_add 64 (div_euclid nanos_since_unix nanos_per_day) (pos arrow_epoch_offset_days))
          (usage (str "Timestamp overflow translating to TDS DATETIME2"))
    days ←
        ok_or (try_unsigned 32 days_tds)
          (usage (str "Timestamp predates SQL Server DATETIME2 epoch (0001-01-01)"))
    ok (
        ColumnValues.date_time2 (record {
          days = days;
          time = record { time_nanoseconds = intraday; scale = t.default_vartime_scale };
        }))

module _ {t : Tds} (p : Payloads t) where
  unfoldable pub date32_cell : ℤ → Result (ColumnValues t)
  unfolding checked_add
  date32_cell days_from_unix_epoch = do
    days ←
        ok_or (checked_add 32 days_from_unix_epoch (pos arrow_epoch_offset_days))
          (usage (str "Date32 overflow translating to TDS DATE"))
    days_tds ← ok_or (try_unsigned 32 days) (
        usage (
          str "Date32 value "
          ++ (int_to_decimal days_from_unix_epoch
              ++ str " predates SQL Server DATE epoch (0001-01-01)")))
    date ← map_err (p.create_date days_tds)
    ok (ColumnValues.date date)

  unfoldable pub decimal128_cell : ℕ → ℤ → ℤ → Result (ColumnValues t)
  decimal128_cell precision scale raw = do
    tds_scale ←
        ok_or (try_unsigned 8 scale)
          (usage (str "Decimal128 negative scale is unsupported for TDS DECIMAL"))
    parts ← map_err (p.decimal_from_string (format_decimal128 raw scale) precision tds_scale)
    ok (ColumnValues.decimal parts)

  -- `null_for_arrow_type`.
  unfoldable pub null_for_arrow_type : DataType → ColumnValues t
  null_for_arrow_type DataType.boolean = ColumnValues.bit false
  null_for_arrow_type DataType.int8 = ColumnValues.small_int (pos 0)
  null_for_arrow_type DataType.int16 = ColumnValues.small_int (pos 0)
  null_for_arrow_type DataType.int32 = ColumnValues.int (pos 0)
  null_for_arrow_type DataType.uint16 = ColumnValues.int (pos 0)
  null_for_arrow_type DataType.int64 = ColumnValues.big_int (pos 0)
  null_for_arrow_type DataType.uint32 = ColumnValues.big_int (pos 0)
  null_for_arrow_type DataType.uint8 = ColumnValues.tiny_int 0
  null_for_arrow_type DataType.float32 = ColumnValues.real p.float32_zero
  null_for_arrow_type DataType.float64 = ColumnValues.float p.float64_zero
  null_for_arrow_type DataType.utf8 = ColumnValues.string (t.from_utf8_string [])
  null_for_arrow_type DataType.large_utf8 = ColumnValues.string (t.from_utf8_string [])
  null_for_arrow_type _ = ColumnValues.bytes []

  -- The match on the data type of a cell that is not null.
  unfoldable pub typed_cell : DataType → ArrayValues t → ℕ → Result (ColumnValues t)
  unfolding time64_nanos time64_cell timestamp_nanos timestamp_cell date32_cell decimal128_cell
  typed_cell DataType.boolean values idx = do
    a ← downcast (str "Boolean") (as_boolean values)
    ok (ColumnValues.bit (a idx))
  typed_cell DataType.int8 values idx = do
    a ← downcast (str "Int8") (as_int8 values)
    ok (ColumnValues.small_int (a idx))
  typed_cell DataType.int16 values idx = do
    a ← downcast (str "Int16") (as_int16 values)
    ok (ColumnValues.small_int (a idx))
  typed_cell DataType.int32 values idx = do
    a ← downcast (str "Int32") (as_int32 values)
    ok (ColumnValues.int (a idx))
  typed_cell DataType.int64 values idx = do
    a ← downcast (str "Int64") (as_int64 values)
    ok (ColumnValues.big_int (a idx))
  typed_cell DataType.uint8 values idx = do
    a ← downcast (str "UInt8") (as_uint8 values)
    ok (ColumnValues.tiny_int (a idx))
  typed_cell DataType.uint16 values idx = do
    a ← downcast (str "UInt16") (as_uint16 values)
    ok (ColumnValues.int (pos (a idx)))
  typed_cell DataType.uint32 values idx = do
    a ← downcast (str "UInt32") (as_uint32 values)
    ok (ColumnValues.big_int (pos (a idx)))
  typed_cell DataType.float32 values idx = do
    a ← downcast (str "Float32") (as_float32 values)
    ok (ColumnValues.real (a idx))
  typed_cell DataType.float64 values idx = do
    a ← downcast (str "Float64") (as_float64 values)
    ok (ColumnValues.float (a idx))
  typed_cell DataType.utf8 values idx = do
    a ← downcast (str "Utf8") (as_string values)
    ok (ColumnValues.string (t.from_utf8_string (a idx)))
  typed_cell DataType.large_utf8 values idx = do
    a ← downcast (str "LargeUtf8") (as_large_string values)
    ok (ColumnValues.string (t.from_utf8_string (a idx)))
  typed_cell DataType.binary values idx = do
    a ← downcast (str "Binary") (as_binary values)
    ok (ColumnValues.bytes (a idx))
  typed_cell DataType.large_binary values idx = do
    a ← downcast (str "LargeBinary") (as_large_binary values)
    ok (ColumnValues.bytes (a idx))
  typed_cell (DataType.fixed_size_binary n) values idx = do
    a ← downcast (str "FixedSizeBinary") (as_fixed_size_binary values)
    ok (ColumnValues.bytes (a idx))
  typed_cell DataType.date32 values idx = do
    a ← downcast (str "Date32") (as_date32 values)
    date32_cell (a idx)
  typed_cell (DataType.time64 unit) values idx = do
    nanos ← time64_nanos unit values idx
    time64_cell nanos
  typed_cell (DataType.timestamp unit tz) values idx = do
    nanos ← timestamp_nanos unit values idx
    timestamp_cell nanos
  typed_cell (DataType.decimal128 precision scale) values idx = do
    a ← downcast (str "Decimal128") (as_decimal128 values)
    decimal128_cell precision scale (a idx)
  typed_cell DataType.other values idx =
      err (usage (str "unsupported Arrow data type for bulk_insert::send_arrow"))

  -- `arrow_value_to_column_value`.
  unfoldable pub arrow_value_to_column_value : Array t → ℕ → Result (ColumnValues t)
  unfolding null_for_arrow_type typed_cell
  arrow_value_to_column_value array idx =
      if leb array.len idx
      then err (
          usage (
            str "Arrow row index "
            ++ (to_decimal idx
                ++ (str " is out of bounds for array length " ++ to_decimal array.len))))
      else if array.is_null idx
      then ok (null_for_arrow_type array.data_type)
      else typed_cell array.data_type array.values idx
