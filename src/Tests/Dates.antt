-- ===== src/Tests/Dates.antt =====
-- Dates and times at concrete values.
use mssql_tiberius_bridge.Prelude.{ℕ, ◌+◌, ◌*◌, ◌<◌, ◌≤◌, ◌≡◌, refl, some, ℤ, pos, negsuc, arith}
use mssql_tiberius_bridge.Error.{ok}
use mssql_tiberius_bridge.Conversion.{ColumnData}
use mssql_tiberius_bridge.Conversion.Dates.{DateTarget, into_sql_date, from_column_data_date}
use mssql_tiberius_bridge.Conversion.DateTrips.{Same, from_column_data_date-into_sql_date}
use mssql_tiberius_bridge.Driver.{plain}
use mssql_tiberius_bridge.Payloads.{plain_payloads, plain-DateLaws}
use mssql_tiberius_bridge.Temporal.Chrono.{TimeOfDay, plain_chrono, plain-ChronoLaws}
use mssql_tiberius_bridge.Temporal.Crates.{TimeCrate, JiffCrate}
use mssql_tiberius_bridge.Temporal.FromSql.{time_from_ticks}
use mssql_tiberius_bridge.Temporal.ToSql.{naive_time_to_sql, time_time_to_sql, jiff_time_to_sql}
use mssql_tiberius_bridge.Temporal.Laws.{time_from_ticks_bounds, naive_time_to_sql-crates}

-- 01:02:03.000000455.
abbrev clock : TimeOfDay
clock = record { secs = 3723; nanos = 455; fits = omega arith }

time_from_ticks_example :
    (w : TimeOfDay) × (ms : ℕ) × (time_from_ticks plain_payloads plain_chrono 25919999 ≡ some w)
    × (w.secs * 1000000000 + w.nanos ≡ ms * 1000000)
    × (ms * 3 ≤ 25919999 * 10)
    × (25919999 * 10 < (ms + 1) * 3)
time_from_ticks_example =
    time_from_ticks_bounds plain_payloads plain_chrono plain-ChronoLaws 25919999 (omega arith)

-- The two crates with times of day as their parts, and nothing else of interest.
abbrev Parts : Type 0
Parts = ℕ × ℕ × ℕ × ℕ

abbrev plain_time : TimeCrate
plain_time = record {
  Date = ℕ;
  Time = Parts;
  PrimitiveDateTime = ℕ × Parts;
  OffsetDateTime = ℕ × Parts;
  UtcOffset = ℤ;
  month_try_from = λ n. some n;
  from_calendar_date = λ y m d. some d;
  year = λ d. pos d;
  month = λ d. 1;
  day = λ d. 1;
  from_hms_nano = λ h m s n. some (h, m, s, n);
  hour = λ v. v.0;
  minute = λ v. v.1;
  second = λ v. v.2;
  nanosecond = λ v. v.3;
  primitive = λ d v. (d, v);
  date_of = λ dt. dt.0;
  time_of = λ dt. dt.1;
  assume_utc = λ dt. dt;
  to_offset = λ dt o. dt;
  offset_date = λ dt. dt.0;
  offset_time = λ dt. dt.1;
  offset = λ dt. pos 0;
  utc = pos 0;
  from_whole_seconds = λ n. some n;
  whole_seconds = λ o. o;
}

abbrev Signed : Type 0
Signed = ℤ × ℤ × ℤ × ℤ

abbrev plain_jiff : JiffCrate
plain_jiff = record {
  Date = ℕ;
  Time = Signed;
  DateTime = ℕ × Signed;
  Timestamp = ℕ × Signed;
  Zoned = ℕ × Signed;
  Offset = ℤ;
  new_date = λ y m d. some 0;
  year = λ d. pos d;
  month = λ d. pos 1;
  day = λ d. pos 1;
  new_time = λ h m s n. some (h, m, s, n);
  hour = λ v. v.0;
  minute = λ v. v.1;
  second = λ v. v.2;
  subsec_nanosecond = λ v. v.3;
  new_datetime = λ y mo d h m s n. some (0, (h, m, s, n));
  date_of = λ dt. dt.0;
  time_of = λ dt. dt.1;
  new_timestamp = λ s n. some (0, (s, s, s, n));
  to_utc_datetime = λ ts. ts;
  offset_from_seconds = λ n. some n;
  to_zoned = λ ts o. ts;
  timestamp = λ z. z;
  offset_seconds = λ z. pos 0;
}

naive_time_to_sql-crates_example :
    (time_time_to_sql plain_payloads plain_chrono plain_time (1, 2, 3, 455)
      ≡ naive_time_to_sql plain_payloads plain_chrono clock)
    × (jiff_time_to_sql plain_payloads plain_chrono plain_jiff (pos 1, pos 2, pos 3, pos 455)
        ≡ some (naive_time_to_sql plain_payloads plain_chrono clock))
naive_time_to_sql-crates_example =
    naive_time_to_sql-crates plain_payloads plain_chrono plain-ChronoLaws plain_time plain_jiff
      clock (1, 2, 3, 455) (pos 1, pos 2, pos 3, pos 455) (refl, refl, refl, refl)
      (refl, refl, refl, refl) (omega arith)

from_column_data_date_example :
    (d : ColumnData plain) × (w : (ℤ × TimeOfDay) × ℤ) × (into_sql_date plain_payloads plain_chrono
        DateTarget.fixed_offset
        (some ((pos 738000, clock), negsuc 119))
      ≡ some d)
    × (from_column_data_date plain_payloads plain_chrono DateTarget.fixed_offset d ≡ ok (some w))
    × Same plain_payloads plain_chrono DateTarget.fixed_offset ((pos 738000, clock), negsuc 119) w
from_column_data_date_example =
    from_column_data_date-into_sql_date plain_payloads plain_chrono plain-ChronoLaws
      DateTarget.fixed_offset ((pos 738000, clock), negsuc 119) plain-DateLaws
      ((737999, refl, omega arith), omega arith, (negsuc 1, refl, refl))
