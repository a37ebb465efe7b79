-- ===== src/Conversion/Crates.antt =====
-- src/compat/conversion.rs, the types of the crates time and jiff. A bound value that is `none` is a
-- panic, as in `Temporal/ToSql`.
use mssql_tiberius_bridge.Prelude.{Option, none, some, map_option, pos}
use mssql_tiberius_bridge.Driver.{Tds, ColumnValues, SqlType}
use mssql_tiberius_bridge.Error.{Result}
use mssql_tiberius_bridge.Payloads.{Payloads}
use mssql_tiberius_bridge.Temporal.Chrono.{Chrono}
use mssql_tiberius_bridge.Temporal.Crates.{TimeCrate, JiffCrate}
use mssql_tiberius_bridge.Temporal.FromSql.{
  from_sql_time_date, from_sql_time_time, from_sql_primitive_date_time, from_sql_offset_date_time,
  from_sql_jiff_date, from_sql_jiff_time, from_sql_jiff_datetime, from_sql_timestamp,
  from_sql_zoned,
}
use mssql_tiberius_bridge.Temporal.ToSql.{
  time_date_to_sql, time_time_to_sql, primitive_dt_to_sql, offset_date_time_to_sql,
  jiff_date_to_sql, jiff_time_to_sql, jiff_datetime_to_sql, timestamp_to_sql, zoned_to_sql,
}
use mssql_tiberius_bridge.Conversion.{ColumnData, from_native}
use mssql_tiberius_bridge.Conversion.Decode.{from_column_data_exact}
use mssql_tiberius_bridge.Conversion.Dates.{DateTarget, listed_date, null_date}

pub data TimeTarget : Type 0 where
  date time primitive offset_date_time : TimeTarget

abbrev TimeRep : TimeCrate → TimeTarget → Type 0
TimeRep k TimeTarget.date = k.Date
TimeRep k TimeTarget.time = k.Time
TimeRep k TimeTarget.primitive = k.PrimitiveDateTime
TimeRep k TimeTarget.offset_date_time = k.OffsetDateTime

pub data JiffTarget : Type 0 where
  civil_date civil_time civil_datetime timestamp zoned : JiffTarget

abbrev JiffRep : JiffCrate → JiffTarget → Type 0
JiffRep k JiffTarget.civil_date = k.Date
JiffRep k JiffTarget.civil_time = k.Time
JiffRep k JiffTarget.civil_datetime = k.DateTime
JiffRep k JiffTarget.timestamp = k.Timestamp
JiffRep k JiffTarget.zoned = k.Zoned

-- The chrono type whose variants and typed NULL the macros' tables give each type.
unfoldable time_row : TimeTarget → DateTarget
time_row TimeTarget.date = DateTarget.naive_date
time_row TimeTarget.time = DateTarget.naive_time
time_row TimeTarget.primitive = DateTarget.naive_date_time
time_row TimeTarget.offset_date_time = DateTarget.fixed_offset

unfoldable jiff_row : JiffTarget → DateTarget
jiff_row JiffTarget.civil_date = DateTarget.naive_date
jiff_row JiffTarget.civil_time = DateTarget.naive_time
jiff_row JiffTarget.civil_datetime = DateTarget.naive_date_time
jiff_row JiffTarget.timestamp = DateTarget.fixed_offset
jiff_row JiffTarget.zoned = DateTarget.fixed_offset

module _ {t : Tds} (p : Payloads t) (c : Chrono) where
  module _ (k : TimeCrate) where
    time_target_to_sql : (target : TimeTarget) → TimeRep k target → Option (SqlType t)
    time_target_to_sql TimeTarget.date v =
        map_option (λ d. SqlType.date (some d)) (time_date_to_sql p c k v)
    time_target_to_sql TimeTarget.time v = some (SqlType.time (some (time_time_to_sql p c k v)))
    time_target_to_sql TimeTarget.primitive v =
        map_option (λ dt. SqlType.date_time2 (some dt)) (primitive_dt_to_sql p c k v)
    time_target_to_sql TimeTarget.offset_date_time v = offset_date_time_to_sql p c k v

    unfoldable into_sql_time :
        (target : TimeTarget) → Option (TimeRep k target) → Option (ColumnData t)
    unfolding time_target_to_sql null_date time_row from_native
    into_sql_time target (some v) = map_option from_native (time_target_to_sql target v)
    into_sql_time target none = some (null_date (time_row target))

    time_from_sql : (target : TimeTarget) → ColumnValues t → Option (TimeRep k target)
    time_from_sql TimeTarget.date = from_sql_time_date p c k
    time_from_sql TimeTarget.time = from_sql_time_time p c k
    time_from_sql TimeTarget.primitive = from_sql_primitive_date_time p c k
    time_from_sql TimeTarget.offset_date_time = from_sql_offset_date_time p c k

    unfoldable from_column_data_time :
        (target : TimeTarget) → ColumnData t → Result (Option (TimeRep k target))
    unfolding from_column_data_exact listed_date time_row time_from_sql
    from_column_data_time target =
        from_column_data_exact (listed_date (time_row target)) (time_from_sql target)

  module _ (k : JiffCrate) where
    jiff_target_to_sql : (target : JiffTarget) → JiffRep k target → Option (SqlType t)
    jiff_target_to_sql JiffTarget.civil_date v =
        map_option (λ d. SqlType.date (some d)) (jiff_date_to_sql p c k v)
    jiff_target_to_sql JiffTarget.civil_time v =
        map_option (λ x. SqlType.time (some x)) (jiff_time_to_sql p c k v)
    jiff_target_to_sql JiffTarget.civil_datetime v =
        map_option (λ dt. SqlType.date_time2 (some dt)) (jiff_datetime_to_sql p c k v)
    jiff_target_to_sql JiffTarget.timestamp v =
        map_option (λ dto. SqlType.date_time_offset (some dto)) (timestamp_to_sql p c k v (pos 0))
    jiff_target_to_sql JiffTarget.zoned v = zoned_to_sql p c k v

    unfoldable into_sql_jiff :
        (target : JiffTarget) → Option (JiffRep k target) → Option (ColumnData t)
    unfolding jiff_target_to_sql null_date jiff_row from_native
    into_sql_jiff target (some v) = map_option from_native (jiff_target_to_sql target v)
    into_sql_jiff target none = some (null_date (jiff_row target))

    jiff_from_sql : (target : JiffTarget) → ColumnValues t → Option (JiffRep k target)
    jiff_from_sql JiffTarget.civil_date = from_sql_jiff_date p c k
    jiff_from_sql JiffTarget.civil_time = from_sql_jiff_time p c k
    jiff_from_sql JiffTarget.civil_datetime = from_sql_jiff_datetime p c k
    jiff_from_sql JiffTarget.timestamp = from_sql_timestamp p c k
    jiff_from_sql JiffTarget.zoned = from_sql_zoned p c k

    unfoldable from_column_data_jiff :
        (target : JiffTarget) → ColumnData t → Result (Option (JiffRep k target))
    unfolding from_column_data_exact listed_date jiff_row jiff_from_sql
    from_column_data_jiff target =
        from_column_data_exact (listed_date (jiff_row target)) (jiff_from_sql target)
