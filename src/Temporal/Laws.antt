-- ===== src/Temporal/Laws.antt =====
-- src/row.rs and src/query.rs: what is sent as a date or a time is read back, to the 100 nanoseconds
-- that a cell holds.
use mssql_tiberius_bridge.Prelude.{
  ℕ, suc, ◌+◌, ◌*◌, ◌/◌, ◌%◌, ◌^◌, ◌≤◌, ◌<◌, ◌≡◌, refl, sym, ap, ◌∙◌, Option, none, some,
  bind_option, ℤ, pos, negsuc, scale_ℤ, in_signed, arith, true, ◌+ℤ◌, as_i32, as_i16, checked_add,
  try_unsigned,
}
use mssql_tiberius_bridge.Driver.{Tds, ColumnValues, SqlType, SqlDateTime2, SqlDateTimeOffset}
use mssql_tiberius_bridge.Task.{TdsResult, tds_ok, tds_err}
use mssql_tiberius_bridge.Payloads.{Payloads, DateLaws, max_date}
use mssql_tiberius_bridge.Temporal.Chrono.{Chrono, ChronoLaws}
use mssql_tiberius_bridge.Temporal.Crates.{TimeCrate, JiffCrate}
use mssql_tiberius_bridge.Temporal.FromSql.{
  ce_days, units_secs, units_nanos, date_from_ce, time_from_units, time_from_ticks,
  date_time_from_dt2, from_sql_naive_date_time, from_sql_date_time_offset,
}
use mssql_tiberius_bridge.Temporal.ToSql.{
  naive_date_to_sql, naive_time_to_sql, naive_dt_to_sql, date_time_to_sql, fixed_offset_to_sql,
  offset_minutes, time_time_to_sql, jiff_time_to_sql, expect,
}

-- The units that a time of day is sent as.
abbrev units_of : ℕ → ℕ → ℕ
units_of secs nanos = (secs * 1000000000 + nanos) / 100

units_secs_lem : (s n : ℕ) → s < 86400 → n < 1000000000 → units_secs (units_of s n) ≡ s
unfolding units_secs
units_secs_lem s n hs hn = omega arith

units_nanos_lem :
    (s n : ℕ) → s < 86400 → n < 1000000000 → units_nanos (units_of s n) ≡ n / 100 * 100
unfolding units_nanos
units_nanos_lem s n hs hn = omega arith

pub ce_days_lem : (n : ℕ) → n ≤ max_date → ce_days n ≡ pos (n + 1)
unfolding ce_days as_i32 ◌+ℤ◌
ce_days_lem n h = ground arith

-- The day before a day, where the source accepts it.
abbrev day_before : ℤ → Option ℕ
day_before z = bind_option (checked_add 32 z (negsuc 0)) (try_unsigned 32)

day_before_lem : (z : ℤ) (n : ℕ) → day_before z ≡ some n → z ≡ pos (n + 1)
unfolding checked_add ◌+ℤ◌
day_before_lem z n h = ground arith

offset_minutes_lem : (m : ℤ) → in_signed 16 m ≡ true → offset_minutes (scale_ℤ m 60) ≡ m
unfolding offset_minutes as_i16
offset_minutes_lem (pos m) h = ground arith
offset_minutes_lem (negsuc m) h = ground arith

-- What a successful bind came from.
bind_option-some :
    {A B : Type 0} (o : Option A) (f : A → Option B) {b : B}
    → bind_option o f ≡ some b
    → (a : A) × (o ≡ some a) × (f a ≡ some b)
bind_option-some none f h = cc
bind_option-some (some a) f h = (a, refl, h)

pub bind_both :
    {A B C : Type 0} (o : Option A) (q : Option B) (f : A → B → C) {a : A} {b : B}
    → o ≡ some a
    → q ≡ some b
    → bind_option o (λ x. bind_option q (λ y. some (f x y))) ≡ some (f a b)
bind_both none q f h k = cc
bind_both (some x) none f h k = cc
bind_both (some x) (some y) f h k = cc

expect-some : {A : Type 0} (r : TdsResult A) {a : A} → expect r ≡ some a → r ≡ tds_ok a
expect-some (tds_ok a) h = cc
expect-some (tds_err e) h = cc

day_before-suc : (n : ℕ) → n ≤ max_date → day_before (pos (suc n)) ≡ some n
unfolding checked_add ◌+ℤ◌
day_before-suc n h = ground arith

module _ {t : Tds} (p : Payloads t) (c : Chrono) where
  -- A time of day and its reading agree to the 100 nanoseconds that a cell holds.
  abbrev pub SameTime : c.NaiveTime → c.NaiveTime → Type 0
  SameTime v w =
      (c.num_seconds_from_midnight w ≡ c.num_seconds_from_midnight v)
      × (c.nanosecond w ≡ c.nanosecond v / 100 * 100)

  time_from_units_lem :
      (s n : ℕ)
      → s < 86400
      → n < 1000000000
      → time_from_units p c (units_of s n) ≡ c.from_num_seconds_from_midnight_opt s (n / 100 * 100)
  unfolding time_from_units
  time_from_units_lem s n hs hn = λ i.
      c.from_num_seconds_from_midnight_opt (units_secs_lem s n hs hn i)
        (units_nanos_lem s n hs hn i)

  naive_date_to_sql-some :
      (d : c.NaiveDate) (s : t.SqlDate)
      → naive_date_to_sql p c d ≡ some s
      → (n : ℕ) × (c.num_days_from_ce d ≡ pos (n + 1)) × (p.create_date n ≡ tds_ok s)
  unfolding naive_date_to_sql
  naive_date_to_sql-some d s h =
      let (before, e, h') =
        bind_option-some (checked_add 32 (c.num_days_from_ce d) (negsuc 0)) _ h in
      let (days, e', h'') = bind_option-some (try_unsigned 32 before) _ h' in
      (
        days,
        day_before_lem (c.num_days_from_ce d) days
            (ap (λ o. bind_option o (try_unsigned 32)) e ∙ e'),
        expect-some (p.create_date days) h'',
      )

  pub naive_date_to_sql-total :
      DateLaws p
      → (d : c.NaiveDate) (n : ℕ) → c.num_days_from_ce d ≡ pos (suc n)
      → n ≤ max_date
      → (s : t.SqlDate) × (naive_date_to_sql p c d ≡ some s)
  unfolding naive_date_to_sql
  naive_date_to_sql-total dates d n e h =
      let (s, created) = dates.total n h in
      let q : naive_date_to_sql p c d ≡ some s =
        ap
          (λ z.
            bind_option (checked_add 32 z (negsuc 0))
              (λ b. bind_option (try_unsigned 32 b) (λ days. expect (p.create_date days))))
          e
        ∙ ground (arith, day_before-suc n h) in
      (s, q)

  naive_dt_to_sql-some :
      (dt : c.NaiveDateTime) (d : t.SqlDate)
      → naive_date_to_sql p c (c.date_of dt) ≡ some d
      → naive_dt_to_sql p c dt
        ≡ some (record { days = p.get_days d; time = naive_time_to_sql p c (c.time_of dt) })
  unfolding naive_dt_to_sql
  naive_dt_to_sql-some dt d sent =
      ap
        (λ o.
          bind_option o (λ x.
            some (record { days = p.get_days x; time = naive_time_to_sql p c (c.time_of dt) })))
        sent

  date_time_from_dt2-some :
      (s : SqlDateTime2) (d : c.NaiveDate) (v : c.NaiveTime)
      → date_from_ce p c s.days ≡ some d
      → time_from_units p c (s.time.time_nanoseconds) ≡ some v
      → date_time_from_dt2 p c s ≡ some (c.date_time d v)
  unfolding date_time_from_dt2
  date_time_from_dt2-some s d v = bind_both (date_from_ce p c s.days) _ c.date_time

  module _ (laws : ChronoLaws c) where
    pub time_from_units-naive_time_to_sql :
        (v : c.NaiveTime)
        → c.nanosecond v < 1000000000
        → (w : c.NaiveTime) × (time_from_units p c ((naive_time_to_sql p c v).time_nanoseconds)
            ≡ some w)
          × SameTime v w
    unfolding naive_time_to_sql
    time_from_units-naive_time_to_sql v h =
        let s = c.num_seconds_from_midnight v in
        let n = c.nanosecond v / 100 * 100 in
        let (w, e) = laws.time_total s n (laws.within_day v) (omega arith) in
        (
          w,
          time_from_units_lem s (c.nanosecond v) (laws.within_day v) h ∙ e,
          (laws.seconds s n w e, laws.nanos s n w e),
        )

    module _ (dates : DateLaws p) where
      pub date_from_ce-naive_date_to_sql :
          (d : c.NaiveDate) (s : t.SqlDate)
          → naive_date_to_sql p c d ≡ some s
          → date_from_ce p c (p.get_days s) ≡ some d
      date_from_ce-naive_date_to_sql d s h =
          let (n, e, created) = naive_date_to_sql-some d s h in
          ap (date_from_ce p c) (dates.days n s created)
          ∙ unfold date_from_ce in
            ap c.from_num_days_from_ce_opt (ce_days_lem n (dates.range n s created) ∙ sym e)
            ∙ laws.days d

      pub date_time_from_dt2-naive_dt_to_sql :
          (dt : c.NaiveDateTime) (n : ℕ)
          → c.num_days_from_ce (c.date_of dt) ≡ pos (suc n)
          → n ≤ max_date
          → c.nanosecond (c.time_of dt) < 1000000000
          → (s : SqlDateTime2) × (w : c.NaiveDateTime) × (naive_dt_to_sql p c dt ≡ some s)
            × (date_time_from_dt2 p c s ≡ some w)
            × (c.date_of w ≡ c.date_of dt)
            × SameTime (c.time_of dt) (c.time_of w)
      date_time_from_dt2-naive_dt_to_sql dt n e h leap =
          let (d, sent) = naive_date_to_sql-total dates (c.date_of dt) n e h in
          let (v, read, same) = time_from_units-naive_time_to_sql (c.time_of dt) leap in
          let date_read = date_from_ce-naive_date_to_sql (c.date_of dt) d sent in
          let s : SqlDateTime2 = record {
            days = p.get_days d;
            time = naive_time_to_sql p c (c.time_of dt);
          } in
          (
            s,
            c.date_time (c.date_of dt) v,
            naive_dt_to_sql-some dt d sent,
            date_time_from_dt2-some s (c.date_of dt) v date_read read,
            laws.date_part (c.date_of dt) v,
            (
              ap c.num_seconds_from_midnight (laws.time_part (c.date_of dt) v) ∙ same.0,
              ap c.nanosecond (laws.time_part (c.date_of dt) v) ∙ same.1,
            ),
          )

      -- A date and time from 0001-01-01 to 9999-12-31, other than a leap second, is sent as a
      -- DATETIME2 that is read back as the same date and the same time of day, rounded down to the
      -- 100 nanoseconds that a cell holds. Sending it does not panic.
      pub from_sql_naive_date_time-date_time_to_sql :
          (dt : c.NaiveDateTime) (n : ℕ)
          → c.num_days_from_ce (c.date_of dt) ≡ pos (suc n)
          → n ≤ max_date
          → c.nanosecond (c.time_of dt) < 1000000000
          → (s : SqlDateTime2) × (w : c.NaiveDateTime) × (date_time_to_sql p c dt
              ≡ some (SqlType.date_time2 (some s)))
            × (from_sql_naive_date_time p c (ColumnValues.date_time2 s) ≡ some w)
            × (c.date_of w ≡ c.date_of dt)
            × SameTime (c.time_of dt) (c.time_of w)
      unfolding date_time_to_sql from_sql_naive_date_time
      from_sql_naive_date_time-date_time_to_sql dt n e h leap =
          let (s, w, sent, read, date, time) = date_time_from_dt2-naive_dt_to_sql dt n e h leap in
          (
            s,
            w,
            ap (λ o. bind_option o (λ x. some (SqlType.date_time2 (some x)))) sent,
            read,
            date,
            time,
          )

      -- A time stamp with an offset of whole minutes, whose UTC date lies from 0001-01-01 to
      -- 9999-12-31 and which is no leap second, is sent as a DATETIMEOFFSET that is read back with
      -- the same offset, the same UTC date and the same UTC time of day, rounded down to the 100
      -- nanoseconds that a cell holds. Sending it does not panic.
      pub from_sql_date_time_offset-fixed_offset_to_sql :
          (dt : c.DateTime) (n : ℕ) (m : ℤ)
          → c.num_days_from_ce (c.date_of (c.naive_utc dt)) ≡ pos (suc n)
          → n ≤ max_date
          → c.nanosecond (c.time_of (c.naive_utc dt)) < 1000000000
          → c.local_minus_utc (c.offset dt) ≡ scale_ℤ m 60
          → in_signed 16 m ≡ true
          → (s : SqlDateTimeOffset) × (w : c.DateTime) × (fixed_offset_to_sql p c dt
              ≡ some (SqlType.date_time_offset (some s)))
            × (from_sql_date_time_offset p c (ColumnValues.date_time_offset s) ≡ some w)
            × (c.offset w ≡ c.offset dt)
            × (c.date_of (c.naive_utc w) ≡ c.date_of (c.naive_utc dt))
            × SameTime (c.time_of (c.naive_utc dt)) (c.time_of (c.naive_utc w))
      unfolding fixed_offset_to_sql from_sql_date_time_offset
      from_sql_date_time_offset-fixed_offset_to_sql dt n m e h leap minutes fits =
          let (s, w, sent, read, date, time) =
            date_time_from_dt2-naive_dt_to_sql (c.naive_utc dt) n e h leap in
          let rounded : offset_minutes (c.local_minus_utc (c.offset dt)) ≡ m =
            ap offset_minutes minutes ∙ offset_minutes_lem m fits in
          let east : c.east_opt (scale_ℤ m 60) ≡ some (c.offset dt) =
            ap c.east_opt (sym minutes) ∙ laws.east (c.offset dt) in
          let utc = laws.utc_part w (c.offset dt) in
          (
            record { datetime2 = s; offset = m },
            c.from_naive_utc_and_offset w (c.offset dt),
            ap
                  (λ o. bind_option o (λ x. some (
                    SqlType.date_time_offset (
                      some (record {
                        datetime2 = x;
                        offset = offset_minutes (c.local_minus_utc (c.offset dt));
                      })))))
                  sent
                ∙ ap
                    (λ z.
                      some (SqlType.date_time_offset (some (record { datetime2 = s; offset = z }))))
                    rounded,
            bind_both (date_time_from_dt2 p c s) (c.east_opt (scale_ℤ m 60))
                c.from_naive_utc_and_offset read east,
            laws.offset_part w (c.offset dt),
            ap c.date_of utc ∙ date,
            (
              ap (λ x. c.num_seconds_from_midnight (c.time_of x)) utc ∙ time.0,
              ap (λ x. c.nanosecond (c.time_of x)) utc ∙ time.1,
            ),
          )

    -- A legacy DATETIME cell's time of day, in ticks of 1/300 of a second, is read for every tick of
    -- the day, as a time of a whole number of milliseconds: the last one that is not after the tick.
    pub time_from_ticks_bounds :
        (ticks : ℕ)
        → ticks < 25920000
        → (w : c.NaiveTime) × (ms : ℕ) × (time_from_ticks p c ticks ≡ some w)
          × (c.num_seconds_from_midnight w * 1000000000 + c.nanosecond w ≡ ms * 1000000)
          × (ms * 3 ≤ ticks * 10)
          × (ticks * 10 < (ms + 1) * 3)
    unfolding time_from_ticks
    time_from_ticks_bounds ticks h =
        let s = ticks * 10 / 3 / 1000 % 2 ^ 32 in
        let n = ticks * 10 / 3 % 1000 * 1000000 % 2 ^ 32 in
        let (w, e) = laws.time_total s n (omega arith) (omega arith) in
        let secs = laws.seconds s n w e in
        let nanos = laws.nanos s n w e in
        (w, ticks * 10 / 3, e, omega arith, omega arith, omega arith)

    -- The crates chrono, time and jiff send the same time of day as the same cell: a `time::Time` and a
    -- `jiff::civil::Time` with the hour, minute, second and nanosecond of a chrono time are encoded as
    -- that time is, and encoding the jiff time does not panic.
    pub naive_time_to_sql-crates :
        (k : TimeCrate) (q : JiffCrate) (v : c.NaiveTime) (u : k.Time) (j : q.Time)
        → (k.hour u ≡ c.hour v)
          × (k.minute u ≡ c.minute v)
          × (k.second u ≡ c.second v)
          × (k.nanosecond u ≡ c.nanosecond v)
        → (q.hour j ≡ pos (c.hour v))
          × (q.minute j ≡ pos (c.minute v))
          × (q.second j ≡ pos (c.second v))
          × (q.subsec_nanosecond j ≡ pos (c.nanosecond v))
        → c.nanosecond v < 2000000000
        → (time_time_to_sql p c k u ≡ naive_time_to_sql p c v)
          × (jiff_time_to_sql p c q j ≡ some (naive_time_to_sql p c v))
    unfolding time_time_to_sql jiff_time_to_sql naive_time_to_sql
    naive_time_to_sql-crates k q v u j same_time same_jiff h =
        let clock = laws.clock v in let day = laws.within_day v in (ground arith, ground arith)
