-- ===== src/Arrow/Laws.antt =====
-- src/bulk_arrow.rs: what the cells of an Arrow array are loaded as.
use mssql_tiberius_bridge.Prelude.{
  ℕ, ◌+◌, ◌*◌, ◌/◌, ◌%◌, ◌<◌, ◌≡◌, bind_option, ◌∙◌, false, Option, some, ℤ, pos, arith,
}
use mssql_tiberius_bridge.Driver.{Tds, ColumnValues, SqlTime}
use mssql_tiberius_bridge.Error.{ok}
use mssql_tiberius_bridge.Payloads.{Payloads}
use mssql_tiberius_bridge.Temporal.Chrono.{Chrono, ChronoLaws}
use mssql_tiberius_bridge.Temporal.FromSql.{from_sql_naive_time, units_secs, units_nanos}
use mssql_tiberius_bridge.Arrow.{Array, ArrayValues, DataType, TimeUnit}
use mssql_tiberius_bridge.Arrow.Cell.{
  arrow_value_to_column_value, typed_cell, time64_nanos, time64_cell, nanos_per_day,
}

-- The nanoseconds of a unit.
abbrev pub unit_nanos : TimeUnit → ℕ
unit_nanos TimeUnit.second = 1000000000
unit_nanos TimeUnit.millisecond = 1000000
unit_nanos TimeUnit.microsecond = 1000
unit_nanos TimeUnit.nanosecond = 1

-- The cell at an index that is in bounds and not null.
pub typed_cell_lem :
    {t : Tds} (p : Payloads t) (array : Array t) (idx : ℕ)
    → idx < array.len
    → array.is_null idx ≡ false
    → arrow_value_to_column_value p array idx ≡ typed_cell p array.data_type array.values idx
unfolding arrow_value_to_column_value
typed_cell_lem p array idx bound present = ground arith

-- The cell of a time of day.
abbrev pub time_cell : Tds → ℕ → SqlTime
time_cell t nanos = record { time_nanoseconds = nanos; scale = t.default_vartime_scale }

-- The cell of a date and a time of day, by the number that is stored for the time.
abbrev pub date_time2_cell : (t : Tds) → ℕ → ℕ → ColumnValues t
date_time2_cell t days time =
    ColumnValues.date_time2 (record { days = days; time = time_cell t time })

module _ {t : Tds} (p : Payloads t) (array : Array t) (idx : ℕ) where
  -- What the crate's reader makes of a day and a time of day, in nanoseconds, as chrono accepts them.
  abbrev pub date_and_time : (c : Chrono) → ℕ → ℕ → Option c.NaiveDateTime
  date_and_time c days nanos = bind_option (c.from_num_days_from_ce_opt (pos (days + 1))) (λ date.
      bind_option (c.from_num_seconds_from_midnight_opt (nanos / 1000000000) (nanos % 1000000000))
        (λ time. some (c.date_time date time)))

  -- A time of day in nanoseconds that is in bounds and not null is loaded as a TIME, and a time of day
  -- that the crate reads from that cell is a hundred times the one that was loaded: the loaded
  -- nanoseconds are stored where the readers expect units of 100 nanoseconds.
  pub arrow_value_to_column_value-time64 :
      (c : Chrono) (vs : ℕ → ℤ) (nanos : ℕ) (w : c.NaiveTime)
      → ChronoLaws c
      → array.data_type ≡ DataType.time64 TimeUnit.nanosecond
      → array.values ≡ ArrayValues.time64 TimeUnit.nanosecond vs
      → idx < array.len
      → array.is_null idx ≡ false
      → vs idx ≡ pos nanos
      → nanos < nanos_per_day
      → from_sql_naive_time p c (ColumnValues.time (time_cell t nanos)) ≡ some w
      → (arrow_value_to_column_value p array idx ≡ ok (ColumnValues.time (time_cell t nanos)))
        × (c.num_seconds_from_midnight w * 1000000000 + c.nanosecond w ≡ nanos * 100)
  unfolding typed_cell from_sql_naive_time time64_cell time64_nanos
  arrow_value_to_column_value-time64 c vs nanos w laws typed stored bound present value within
        read =
      let secs = laws.seconds (units_secs nanos) (units_nanos nanos) w read in
      let rest = laws.nanos (units_secs nanos) (units_nanos nanos) w read in
      (
        typed_cell_lem p array idx bound present
            ∙ (λ i. typed_cell p (typed i) (stored i) idx)
            ∙ ground arith,
        omega arith,
      )
