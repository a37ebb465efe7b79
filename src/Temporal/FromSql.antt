-- ===== src/Temporal/FromSql.antt =====
-- src/row.rs, the date and time targets of `FromSql`. Casts and products wrap as they do without
-- overflow checks.
use mssql_tiberius_bridge.Prelude.{
  ℕ, ◌*◌, ◌/◌, ◌%◌, ◌^◌, Option, none, some, bind_option, ℤ, pos, ◌+ℤ◌, as_i32, as_i16, scale_ℤ,
  signed,
}
use mssql_tiberius_bridge.Driver.{Tds, ColumnValues, SqlDateTime2}
use mssql_tiberius_bridge.Payloads.{Payloads}
use mssql_tiberius_bridge.Temporal.Chrono.{Chrono}
use mssql_tiberius_bridge.Temporal.Crates.{TimeCrate, JiffCrate}

infixl 5 ◌>>=◌
abbrev ◌>>=◌ : {A B : Type 0} → Option A → (A → Option B) → Option B
m >>= f = bind_option m f

-- `days as i32 + 1`, from an unsigned number.
unfoldable pub ce_days : ℕ → ℤ
unfolding as_i32 ◌+ℤ◌
ce_days days = as_i32 (as_i32 (pos days) +ℤ pos 1)

-- The seconds and nanoseconds of a number of 100-nanosecond units.
unfoldable pub units_secs : ℕ → ℕ
units_secs units = units * 100 % 2 ^ 64 / 1000000000 % 2 ^ 32

unfoldable pub units_nanos : ℕ → ℕ
units_nanos units = units * 100 % 2 ^ 64 % 1000000000 % 2 ^ 32

-- The milliseconds of a number of ticks of 1/300 of a second.
unfoldable pub ticks_ms : ℕ → ℕ
ticks_ms ticks = ticks * 10 / 3

module _ {t : Tds} (p : Payloads t) (c : Chrono) where
  -- Days since 1900-01-01.
  unfoldable pub date_from_1900 : ℤ → Option c.NaiveDate
  date_from_1900 days = do base ← c.from_ymd_opt (pos 1900) 1 1; c.checked_add_days base days

  unfoldable pub date_from_ce : ℕ → Option c.NaiveDate
  unfolding ce_days
  date_from_ce days = c.from_num_days_from_ce_opt (ce_days days)

  unfoldable pub time_from_units : ℕ → Option c.NaiveTime
  unfolding units_secs units_nanos
  time_from_units units =
      c.from_num_seconds_from_midnight_opt (units_secs units) (units_nanos units)

  unfoldable pub time_from_ticks : ℕ → Option c.NaiveTime
  unfolding ticks_ms
  time_from_ticks ticks =
      c.from_num_seconds_from_midnight_opt (ticks_ms ticks / 1000 % 2 ^ 32)
        (ticks_ms ticks % 1000 * 1000000 % 2 ^ 32)

  -- `chrono::NaiveDate`.
  unfoldable pub from_sql_naive_date : ColumnValues t → Option c.NaiveDate
  unfolding date_from_ce date_from_1900
  from_sql_naive_date (ColumnValues.date d) = date_from_ce (p.get_days d)
  from_sql_naive_date (ColumnValues.date_time2 dt) = date_from_ce dt.days
  from_sql_naive_date (ColumnValues.date_time dt) = date_from_1900 dt.days
  from_sql_naive_date _ = none

  -- `chrono::NaiveTime`.
  unfoldable pub from_sql_naive_time : ColumnValues t → Option c.NaiveTime
  unfolding time_from_units
  from_sql_naive_time (ColumnValues.time v) = time_from_units v.time_nanoseconds
  from_sql_naive_time _ = none

  unfoldable pub date_time_from_dt2 : SqlDateTime2 → Option c.NaiveDateTime
  unfolding date_from_ce time_from_units
  date_time_from_dt2 dt = do
    date ← date_from_ce dt.days
    time ← time_from_units (dt.time.time_nanoseconds)
    some (c.date_time date time)

  -- `chrono::NaiveDateTime`.
  unfoldable pub from_sql_naive_date_time : ColumnValues t → Option c.NaiveDateTime
  unfolding date_time_from_dt2 date_from_1900 time_from_ticks
  from_sql_naive_date_time (ColumnValues.date_time2 dt) = date_time_from_dt2 dt
  from_sql_naive_date_time (ColumnValues.date_time dt) = do
    date ← date_from_1900 dt.days
    time ← time_from_ticks dt.time
    some (c.date_time date time)
  from_sql_naive_date_time (ColumnValues.small_date_time sdt) = do
    date ← date_from_1900 (pos sdt.days)
    time ← c.from_num_seconds_from_midnight_opt (sdt.time * 60 % 2 ^ 32) 0
    some (c.date_time date time)
  from_sql_naive_date_time _ = none

  -- `chrono::DateTime<FixedOffset>`: the stored parts are those of UTC.
  unfoldable pub from_sql_date_time_offset : ColumnValues t → Option c.DateTime
  unfolding date_time_from_dt2
  from_sql_date_time_offset (ColumnValues.date_time_offset dto) = do
    naive ← date_time_from_dt2 dto.datetime2
    offset ← c.east_opt (scale_ℤ dto.offset 60)
    some (c.from_naive_utc_and_offset naive offset)
  from_sql_date_time_offset _ = none

  module _ (k : TimeCrate) where
    unfoldable time_date_from_chrono : c.NaiveDate → Option k.Date
    time_date_from_chrono date = do
      month ← k.month_try_from (c.month date % 2 ^ 8)
      k.from_calendar_date (c.year date) month (c.day date % 2 ^ 8)

    unfoldable time_time_from_chrono : c.NaiveTime → Option k.Time
    time_time_from_chrono time =
        k.from_hms_nano (c.hour time % 2 ^ 8) (c.minute time % 2 ^ 8) (c.second time % 2 ^ 8)
          (c.nanosecond time)

    -- `time::Date`, `time::Time`, `time::PrimitiveDateTime` and `time::OffsetDateTime`.
    unfoldable pub from_sql_time_date : ColumnValues t → Option k.Date
    unfolding time_date_from_chrono from_sql_naive_date
    from_sql_time_date val = do date ← from_sql_naive_date val; time_date_from_chrono date

    unfoldable pub from_sql_time_time : ColumnValues t → Option k.Time
    unfolding time_time_from_chrono from_sql_naive_time
    from_sql_time_time val = do time ← from_sql_naive_time val; time_time_from_chrono time

    unfoldable primitive_from_chrono : c.NaiveDateTime → Option k.PrimitiveDateTime
    unfolding time_date_from_chrono time_time_from_chrono
    primitive_from_chrono dt = do
      date ← time_date_from_chrono (c.date_of dt)
      time ← time_time_from_chrono (c.time_of dt)
      some (k.primitive date time)

    unfoldable pub from_sql_primitive_date_time : ColumnValues t → Option k.PrimitiveDateTime
    unfolding primitive_from_chrono from_sql_naive_date_time
    from_sql_primitive_date_time val = do
      dt ← from_sql_naive_date_time val
      primitive_from_chrono dt

    unfoldable pub from_sql_offset_date_time : ColumnValues t → Option k.OffsetDateTime
    unfolding primitive_from_chrono from_sql_date_time_offset
    from_sql_offset_date_time val = do
      dt ← from_sql_date_time_offset val
      offset ← k.from_whole_seconds (c.local_minus_utc (c.offset dt))
      utc ← primitive_from_chrono (c.naive_utc dt)
      some (k.to_offset (k.assume_utc utc) offset)

  module _ (k : JiffCrate) where
    unfoldable jiff_date_from_chrono : c.NaiveDate → Option k.Date
    unfolding as_i16
    jiff_date_from_chrono date =
        k.new_date (as_i16 (c.year date)) (signed 8 (c.month date % 2 ^ 8))
          (signed 8 (c.day date % 2 ^ 8))

    unfoldable jiff_time_from_chrono : c.NaiveTime → Option k.Time
    unfolding as_i32
    jiff_time_from_chrono time =
        k.new_time (signed 8 (c.hour time % 2 ^ 8)) (signed 8 (c.minute time % 2 ^ 8))
          (signed 8 (c.second time % 2 ^ 8)) (as_i32 (pos (c.nanosecond time)))

    unfoldable jiff_datetime_from_chrono : c.NaiveDateTime → Option k.DateTime
    unfolding as_i16 as_i32
    jiff_datetime_from_chrono dt =
        let date = c.date_of dt in
        let time = c.time_of dt in
        k.new_datetime (as_i16 (c.year date)) (signed 8 (c.month date % 2 ^ 8))
          (signed 8 (c.day date % 2 ^ 8)) (signed 8 (c.hour time % 2 ^ 8))
          (signed 8 (c.minute time % 2 ^ 8)) (signed 8 (c.second time % 2 ^ 8))
          (as_i32 (pos (c.nanosecond time)))

    -- `jiff::civil::Date`, `Time` and `DateTime`, `jiff::Timestamp` and `jiff::Zoned`.
    unfoldable pub from_sql_jiff_date : ColumnValues t → Option k.Date
    unfolding jiff_date_from_chrono from_sql_naive_date
    from_sql_jiff_date val = do date ← from_sql_naive_date val; jiff_date_from_chrono date

    unfoldable pub from_sql_jiff_time : ColumnValues t → Option k.Time
    unfolding jiff_time_from_chrono from_sql_naive_time
    from_sql_jiff_time val = do time ← from_sql_naive_time val; jiff_time_from_chrono time

    unfoldable pub from_sql_jiff_datetime : ColumnValues t → Option k.DateTime
    unfolding jiff_datetime_from_chrono from_sql_naive_date_time
    from_sql_jiff_datetime val = do dt ← from_sql_naive_date_time val; jiff_datetime_from_chrono dt

    unfoldable timestamp_of : c.DateTime → Option k.Timestamp
    unfolding as_i32
    timestamp_of dt = k.new_timestamp (c.timestamp dt) (as_i32 (pos (c.timestamp_subsec_nanos dt)))

    unfoldable pub from_sql_timestamp : ColumnValues t → Option k.Timestamp
    unfolding timestamp_of from_sql_date_time_offset
    from_sql_timestamp val = do dt ← from_sql_date_time_offset val; timestamp_of dt

    unfoldable pub from_sql_zoned : ColumnValues t → Option k.Zoned
    unfolding timestamp_of from_sql_date_time_offset
    from_sql_zoned val = do
      dt ← from_sql_date_time_offset val
      timestamp ← timestamp_of dt
      offset ← k.offset_from_seconds (c.local_minus_utc (c.offset dt))
      some (k.to_zoned timestamp offset)
