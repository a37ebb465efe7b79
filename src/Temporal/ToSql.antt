-- ===== src/Temporal/ToSql.antt =====
-- src/query.rs, the date and time sources of `ToSql`. `none` is a panic: an `expect` that fails, or
-- an overflow of `num_days_from_ce() - 1`, which no date of chrono reaches.
use mssql_tiberius_bridge.Prelude.{
  ℕ, ◌+◌, ◌*◌, ◌/◌, Option, none, some, bind_option, ℤ, pos, negsuc, checked_add, try_unsigned,
  as_i16, quot,
}
use mssql_tiberius_bridge.Driver.{Tds, SqlType, SqlTime, SqlDateTime2, SqlDateTimeOffset}
use mssql_tiberius_bridge.Task.{TdsResult, tds_ok, tds_err}
use mssql_tiberius_bridge.Payloads.{Payloads}
use mssql_tiberius_bridge.Temporal.Chrono.{Chrono}
use mssql_tiberius_bridge.Temporal.Crates.{TimeCrate, JiffCrate}

infixl 5 ◌>>=◌
abbrev ◌>>=◌ : {A B : Type 0} → Option A → (A → Option B) → Option B
m >>= f = bind_option m f

-- `expect` on a driver result.
abbrev pub expect : {A : Type 0} → TdsResult A → Option A
expect (tds_ok a) = some a
expect (tds_err e) = none

-- Seconds east as minutes, `(seconds / 60) as i16`.
unfoldable pub offset_minutes : ℤ → ℤ
unfolding as_i16
offset_minutes seconds = as_i16 (quot seconds 60)

module _ {t : Tds} (p : Payloads t) (c : Chrono) where
  unfoldable pub naive_date_to_sql : c.NaiveDate → Option t.SqlDate
  unfolding checked_add
  naive_date_to_sql d = do
    before ← checked_add 32 (c.num_days_from_ce d) (negsuc 0)
    days ← try_unsigned 32 before
    expect (p.create_date days)

  -- `naive_time_to_sql`, in units of 100 ns.
  unfoldable pub naive_time_to_sql : c.NaiveTime → SqlTime
  naive_time_to_sql v = record {
    time_nanoseconds = (c.num_seconds_from_midnight v * 1000000000 + c.nanosecond v) / 100;
    scale = t.default_vartime_scale;
  }

  unfoldable pub naive_dt_to_sql : c.NaiveDateTime → Option SqlDateTime2
  unfolding naive_date_to_sql naive_time_to_sql
  naive_dt_to_sql dt = do
    date ← naive_date_to_sql (c.date_of dt)
    some (record { days = p.get_days date; time = naive_time_to_sql (c.time_of dt) })

  -- `ToSql` for `NaiveDate`, `NaiveTime`, `NaiveDateTime` and the two `DateTime`s.
  unfoldable pub date_to_sql : c.NaiveDate → Option (SqlType t)
  unfolding naive_date_to_sql
  date_to_sql d = do date ← naive_date_to_sql d; some (SqlType.date (some date))

  unfoldable pub time_to_sql : c.NaiveTime → SqlType t
  unfolding naive_time_to_sql
  time_to_sql v = SqlType.time (some (naive_time_to_sql v))

  unfoldable pub date_time_to_sql : c.NaiveDateTime → Option (SqlType t)
  unfolding naive_dt_to_sql
  date_time_to_sql dt = do dt2 ← naive_dt_to_sql dt; some (SqlType.date_time2 (some dt2))

  unfoldable pub fixed_offset_to_sql : c.DateTime → Option (SqlType t)
  unfolding naive_dt_to_sql offset_minutes
  fixed_offset_to_sql dt = do
    datetime2 ← naive_dt_to_sql (c.naive_utc dt)
    some (
        SqlType.date_time_offset (
          some (record {
            datetime2 = datetime2;
            offset = offset_minutes (c.local_minus_utc (c.offset dt));
          })))

  -- A `DateTime<Utc>`, by its naive UTC parts.
  unfoldable pub utc_to_sql : c.NaiveDateTime → Option (SqlType t)
  unfolding naive_dt_to_sql
  utc_to_sql naive_utc = do
    datetime2 ← naive_dt_to_sql naive_utc
    some (SqlType.date_time_offset (some (record { datetime2 = datetime2; offset = pos 0 })))

  -- The days of a civil date, by way of chrono.
  unfoldable civil_date_to_sql : ℤ → ℕ → ℕ → Option t.SqlDate
  unfolding naive_date_to_sql
  civil_date_to_sql year month day = do
    chrono_date ← c.from_ymd_opt year month day
    naive_date_to_sql chrono_date

  module _ (k : TimeCrate) where
    unfoldable pub time_date_to_sql : k.Date → Option t.SqlDate
    unfolding civil_date_to_sql
    time_date_to_sql d = civil_date_to_sql (k.year d) (k.month d) (k.day d)

    unfoldable pub time_time_to_sql : k.Time → SqlTime
    time_time_to_sql v = record {
      time_nanoseconds =
          (k.hour v * 3600000000000
            + k.minute v * 60000000000
            + k.second v * 1000000000
            + k.nanosecond v)
          / 100;
      scale = t.default_vartime_scale;
    }

    unfoldable pub primitive_dt_to_sql : k.PrimitiveDateTime → Option SqlDateTime2
    unfolding time_date_to_sql time_time_to_sql
    primitive_dt_to_sql dt = do
      date ← time_date_to_sql (k.date_of dt)
      some (record { days = p.get_days date; time = time_time_to_sql (k.time_of dt) })

    unfoldable pub offset_date_time_to_sql : k.OffsetDateTime → Option (SqlType t)
    unfolding primitive_dt_to_sql offset_minutes
    offset_date_time_to_sql dt =
        let utc = k.to_offset dt k.utc in
        do
          datetime2 ← primitive_dt_to_sql (k.primitive (k.offset_date utc) (k.offset_time utc))
          some (
              SqlType.date_time_offset (
                some (record {
                  datetime2 = datetime2;
                  offset = offset_minutes (k.whole_seconds (k.offset dt));
                })))

  module _ (k : JiffCrate) where
    unfoldable pub jiff_date_to_sql : k.Date → Option t.SqlDate
    unfolding civil_date_to_sql
    jiff_date_to_sql d = do
      month ← try_unsigned 32 (k.month d)
      day ← try_unsigned 32 (k.day d)
      civil_date_to_sql (k.year d) month day

    unfoldable pub jiff_time_to_sql : k.Time → Option SqlTime
    jiff_time_to_sql v = do
      hour ← try_unsigned 64 (k.hour v)
      minute ← try_unsigned 64 (k.minute v)
      second ← try_unsigned 64 (k.second v)
      nanos ← try_unsigned 64 (k.subsec_nanosecond v)
      some (record {
        time_nanoseconds =
            (hour * 3600000000000 + minute * 60000000000 + second * 1000000000 + nanos) / 100;
        scale = t.default_vartime_scale;
      })

    unfoldable pub jiff_datetime_to_sql : k.DateTime → Option SqlDateTime2
    unfolding jiff_date_to_sql jiff_time_to_sql
    jiff_datetime_to_sql dt = do
      date ← jiff_date_to_sql (k.date_of dt)
      time ← jiff_time_to_sql (k.time_of dt)
      some (record { days = p.get_days date; time = time })

    unfoldable pub timestamp_to_sql : k.Timestamp → ℤ → Option SqlDateTimeOffset
    unfolding jiff_datetime_to_sql
    timestamp_to_sql timestamp offset_in_minutes = do
      datetime2 ← jiff_datetime_to_sql (k.to_utc_datetime timestamp)
      some (record { datetime2 = datetime2; offset = offset_in_minutes })

    unfoldable pub zoned_to_sql : k.Zoned → Option (SqlType t)
    unfolding timestamp_to_sql offset_minutes
    zoned_to_sql zoned = do
      value ← timestamp_to_sql (k.timestamp zoned) (offset_minutes (k.offset_seconds zoned))
      some (SqlType.date_time_offset (some value))
