-- ===== src/Conversion/DateTrips.antt =====
-- compat/conversion.rs: a date or time that is bound as a parameter reads back.
use mssql_tiberius_bridge.Prelude.{
  ℕ, suc, ◌≤◌, ◌<◌, ◌≡◌, refl, ap, ◌∙◌, Option, none, some, map_option, bind_option, ℤ, pos,
  scale_ℤ, in_signed, true, str, sym,
}
use mssql_tiberius_bridge.Driver.{Tds, SqlType, SqlDateTime2, SqlDateTimeOffset}
use mssql_tiberius_bridge.Error.{Error, Result, ok, err, ◌>>=◌}
use mssql_tiberius_bridge.Payloads.{Payloads, DateLaws, max_date}
use mssql_tiberius_bridge.Temporal.Chrono.{Chrono, ChronoLaws}
use mssql_tiberius_bridge.Temporal.FromSql.{
  date_time_from_dt2, from_sql_naive_date, from_sql_naive_time, from_sql_date_time_offset,
}
use mssql_tiberius_bridge.Temporal.ToSql.{naive_time_to_sql, date_to_sql, time_to_sql, utc_to_sql}
use mssql_tiberius_bridge.Temporal.Laws.{
  SameTime, naive_date_to_sql-total, date_from_ce-naive_date_to_sql,
  time_from_units-naive_time_to_sql, bind_both, date_time_from_dt2-naive_dt_to_sql,
  from_sql_naive_date_time-date_time_to_sql, from_sql_date_time_offset-fixed_offset_to_sql,
}
use mssql_tiberius_bridge.Conversion.{ColumnData, from_native, into_column_value}
use mssql_tiberius_bridge.Conversion.Decode.{interpret, decode_owned, from_column_data_exact}
use mssql_tiberius_bridge.Conversion.Dates.{
  DateTarget, DateRep, listed_date, date_target_to_sql, into_sql_date, from_column_data_utc,
  from_column_data_date,
}

module _ {t : Tds} (p : Payloads t) (c : Chrono) where
  -- From 0001-01-01 to 9999-12-31.
  abbrev InRange : c.NaiveDate → Type 0
  InRange d = (n : ℕ) × (c.num_days_from_ce d ≡ pos (suc n)) × (n ≤ max_date)

  -- Not a leap second.
  abbrev IsOrdinary : c.NaiveTime → Type 0
  IsOrdinary v = c.nanosecond v < 1000000000

  -- What a cell can hold: the dates of SQL Server, no leap second, an offset of whole minutes.
  abbrev pub Encodable : (target : DateTarget) → DateRep c target → Type 0
  Encodable DateTarget.naive_date v = InRange v
  Encodable DateTarget.naive_time v = IsOrdinary v
  Encodable DateTarget.naive_date_time v = InRange (c.date_of v) × IsOrdinary (c.time_of v)
  Encodable DateTarget.utc v = InRange (c.date_of v) × IsOrdinary (c.time_of v)
  Encodable DateTarget.fixed_offset v =
      InRange (c.date_of (c.naive_utc v))
      × IsOrdinary (c.time_of (c.naive_utc v))
      × ((m : ℤ) × (c.local_minus_utc (c.offset v) ≡ scale_ℤ m 60) × (in_signed 16 m ≡ true))

  abbrev SameDateTime : c.NaiveDateTime → c.NaiveDateTime → Type 0
  SameDateTime v w = (c.date_of w ≡ c.date_of v) × SameTime p c (c.time_of v) (c.time_of w)

  -- Equal to the 100 nanoseconds that a cell holds.
  abbrev pub Same : (target : DateTarget) → DateRep c target → DateRep c target → Type 0
  Same DateTarget.naive_date v w = w ≡ v
  Same DateTarget.naive_time v w = SameTime p c v w
  Same DateTarget.naive_date_time v w = SameDateTime v w
  Same DateTarget.utc v w = SameDateTime v w
  Same DateTarget.fixed_offset v w =
      (c.offset w ≡ c.offset v) × SameDateTime (c.naive_utc v) (c.naive_utc w)

  -- `decode_owned` after the native decoder.
  abbrev taken : {A : Type 0} → Option A → Result (Option A)
  taken o = elim o [
    | some a ↦ ok (some a)
    | none ↦ err (Error.conversion (str "cannot interpret value"))
  ]

  abbrev offset_cell : SqlDateTimeOffset → ColumnData t
  offset_cell s = ColumnData.date_time_offset (some s)

  module _ (laws : ChronoLaws c) where
    utc_cell :
        (s : SqlDateTime2) (w : c.NaiveDateTime)
        → date_time_from_dt2 p c s ≡ some w
        → from_column_data_utc p c (offset_cell (record { datetime2 = s; offset = pos 0 }))
          ≡ ok (some w)
    unfolding from_column_data_utc decode_owned interpret into_column_value
        from_sql_date_time_offset
    utc_cell s w read =
        let (o, zero_east) = laws.utc in
        let east : c.east_opt (pos 0) ≡ some o = ap c.east_opt (sym zero_east) ∙ laws.east o in
        let both =
          bind_both (date_time_from_dt2 p c s) (c.east_opt (pos 0)) c.from_naive_utc_and_offset read
            east in
        ap (λ o'. taken o' >>= λ cell. ok (map_option c.naive_utc cell)) both
        ∙ ap (λ z. ok (some z)) (laws.utc_part w o)

    -- A value of chrono that a cell can hold is bound as a parameter without a panic, and
    -- `FromSql` reads the value that was bound back as the same value, to the 100 nanoseconds
    -- that a cell holds: for dates, times, dates with times, time stamps with an offset and UTC time
    -- stamps.
    pub from_column_data_date-into_sql_date :
        (target : DateTarget) (v : DateRep c target)
        → DateLaws p
        → Encodable target v
        → (d : ColumnData t) × (w : DateRep c target) × (into_sql_date p c target (some v) ≡ some d)
          × (from_column_data_date p c target d ≡ ok (some w))
          × Same target v w
    unfolding into_sql_date from_column_data_date date_target_to_sql from_column_data_exact
        listed_date from_native into_column_value decode_owned interpret date_to_sql time_to_sql
        utc_to_sql from_sql_naive_date from_sql_naive_time
    from_column_data_date-into_sql_date DateTarget.naive_date v dates (n, e, h) =
        let (s, sent) = naive_date_to_sql-total p c dates v n e h in
        let read = date_from_ce-naive_date_to_sql p c laws dates v s sent in
        (
          ColumnData.date (some s),
          v,
          ap (λ o. map_option from_native (bind_option o (λ x. some (SqlType.date (some x))))) sent,
          ap taken read,
          refl,
        )
    from_column_data_date-into_sql_date DateTarget.naive_time v dates h =
        let (w, read, same) = time_from_units-naive_time_to_sql p c laws v h in
        (ColumnData.time (some (naive_time_to_sql p c v)), w, refl, ap taken read, same)
    from_column_data_date-into_sql_date DateTarget.naive_date_time v dates ((n, e, h), ordinary) =
        let (s, w, sent, read, date, time) =
          from_sql_naive_date_time-date_time_to_sql p c laws dates v n e h ordinary in
        (
          ColumnData.date_time2 (some s),
          w,
          ap (map_option from_native) sent,
          ap taken read,
          (date, time),
        )
    from_column_data_date-into_sql_date DateTarget.fixed_offset v dates
          ((n, e, h), ordinary, (m, minutes, fits)) =
        let (s, w, sent, read, offset, date, time) =
          from_sql_date_time_offset-fixed_offset_to_sql p c laws dates v n m e h ordinary minutes
            fits in
        (offset_cell s, w, ap (map_option from_native) sent, ap taken read, (offset, (date, time)))
    from_column_data_date-into_sql_date DateTarget.utc v dates ((n, e, h), ordinary) =
        let (s, w, sent, read, date, time) =
          date_time_from_dt2-naive_dt_to_sql p c laws dates v n e h ordinary in
        (
          offset_cell (record { datetime2 = s; offset = pos 0 }),
          w,
          ap
              (λ o. map_option from_native (
                bind_option o (λ x.
                  some
                    (SqlType.date_time_offset (some (record { datetime2 = x; offset = pos 0 }))))))
              sent,
          utc_cell s w read,
          (date, time),
        )
