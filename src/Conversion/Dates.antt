-- ===== src/Conversion/Dates.antt =====
-- src/compat/conversion.rs, the date and time types of chrono. A bound value that is `none` is a
-- panic, as in `Temporal/ToSql`; a `DateTime<Utc>` is its naive UTC date and time.
use mssql_tiberius_bridge.Prelude.{str, Bool, true, false, Option, none, some, map_option}
use mssql_tiberius_bridge.Driver.{Tds, SqlType}
use mssql_tiberius_bridge.Error.{Error, Result, ok, err, ◌>>=◌}
use mssql_tiberius_bridge.Payloads.{Payloads}
use mssql_tiberius_bridge.Temporal.Chrono.{Chrono}
use mssql_tiberius_bridge.Temporal.FromSql.{
  from_sql_naive_date, from_sql_naive_time, from_sql_naive_date_time, from_sql_date_time_offset,
}
use mssql_tiberius_bridge.Temporal.ToSql.{
  date_to_sql, time_to_sql, date_time_to_sql, fixed_offset_to_sql, utc_to_sql,
}
use mssql_tiberius_bridge.Conversion.{ColumnData, from_native}
use mssql_tiberius_bridge.Conversion.Decode.{decode_owned, from_column_data_exact}

pub data DateTarget : Type 0 where
  naive_date naive_time naive_date_time fixed_offset utc : DateTarget

abbrev pub DateRep : Chrono → DateTarget → Type 0
DateRep c DateTarget.naive_date = c.NaiveDate
DateRep c DateTarget.naive_time = c.NaiveTime
DateRep c DateTarget.naive_date_time = c.NaiveDateTime
DateRep c DateTarget.fixed_offset = c.DateTime
DateRep c DateTarget.utc = c.NaiveDateTime

module _ {t : Tds} where
  -- The variants that the macro's table lists, and those of the match for `DateTime<Utc>`.
  unfoldable pub listed_date : DateTarget → ColumnData t → Bool
  listed_date DateTarget.naive_date (ColumnData.date _) = true
  listed_date DateTarget.naive_time (ColumnData.time _) = true
  listed_date DateTarget.naive_date_time (ColumnData.date_time _) = true
  listed_date DateTarget.naive_date_time (ColumnData.small_date_time _) = true
  listed_date DateTarget.naive_date_time (ColumnData.date_time2 _) = true
  listed_date DateTarget.fixed_offset (ColumnData.date_time_offset _) = true
  listed_date _ _ = false

  -- The typed NULL of `impl_into_sql_native!`.
  unfoldable pub null_date : DateTarget → ColumnData t
  null_date DateTarget.naive_date = ColumnData.date none
  null_date DateTarget.naive_time = ColumnData.time none
  null_date DateTarget.naive_date_time = ColumnData.date_time2 none
  null_date DateTarget.fixed_offset = ColumnData.date_time_offset none
  null_date DateTarget.utc = ColumnData.date_time_offset none

module _ {t : Tds} (p : Payloads t) (c : Chrono) where
  -- The native `ToSql` of each source.
  unfoldable pub date_target_to_sql : (target : DateTarget) → DateRep c target → Option (SqlType t)
  date_target_to_sql DateTarget.naive_date v = date_to_sql p c v
  date_target_to_sql DateTarget.naive_time v = some (time_to_sql p c v)
  date_target_to_sql DateTarget.naive_date_time v = date_time_to_sql p c v
  date_target_to_sql DateTarget.fixed_offset v = fixed_offset_to_sql p c v
  date_target_to_sql DateTarget.utc v = utc_to_sql p c v

  -- `IntoSql for Option<T>`.
  unfoldable pub into_sql_date :
      (target : DateTarget) → Option (DateRep c target) → Option (ColumnData t)
  unfolding date_target_to_sql null_date from_native
  into_sql_date target (some v) = map_option from_native (date_target_to_sql target v)
  into_sql_date target none = some (null_date target)

  -- `FromColumnData for DateTime<Utc>`: a cell without an offset is taken to be UTC.
  unfoldable pub from_column_data_utc : ColumnData t → Result (Option c.NaiveDateTime)
  unfolding decode_owned
  from_column_data_utc (ColumnData.date_time_offset v) =
      decode_owned (from_sql_date_time_offset p c) (ColumnData.date_time_offset v) >>= λ read.
      ok (map_option c.naive_utc read)
  from_column_data_utc (ColumnData.date_time2 v) =
      decode_owned (from_sql_naive_date_time p c) (ColumnData.date_time2 v)
  from_column_data_utc _ = err (Error.conversion (str "cannot interpret value"))

  unfoldable pub from_column_data_date :
      (target : DateTarget) → ColumnData t → Result (Option (DateRep c target))
  unfolding from_column_data_exact listed_date from_column_data_utc
  from_column_data_date DateTarget.naive_date =
      from_column_data_exact (listed_date DateTarget.naive_date) (from_sql_naive_date p c)
  from_column_data_date DateTarget.naive_time =
      from_column_data_exact (listed_date DateTarget.naive_time) (from_sql_naive_time p c)
  from_column_data_date DateTarget.naive_date_time =
      from_column_data_exact (listed_date DateTarget.naive_date_time) (from_sql_naive_date_time p c)
  from_column_data_date DateTarget.fixed_offset =
      from_column_data_exact (listed_date DateTarget.fixed_offset) (from_sql_date_time_offset p c)
  from_column_data_date DateTarget.utc = from_column_data_utc
