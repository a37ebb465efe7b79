-- ===== src/Temporal/Chrono.antt =====
-- chrono, as far as row.rs and query.rs call it.
use mssql_tiberius_bridge.Prelude.{
  ℕ, ◌+◌, ◌*◌, ◌/◌, ◌%◌, scale_ℤ, ◌<◌, ◌≡◌, refl, Option, none, some, ℤ, pos, ◌+ℤ◌, ltb,
  if◌then◌else◌, arith, dec_lt,
}

pub record Chrono : Type 1 where
  pub NaiveDate : Type 0
  pub NaiveTime : Type 0
  pub NaiveDateTime : Type 0
  pub FixedOffset : Type 0
  pub DateTime : Type 0
  pub from_num_days_from_ce_opt : ℤ → Option NaiveDate
  pub num_days_from_ce : NaiveDate → ℤ
  pub from_ymd_opt : ℤ → ℕ → ℕ → Option NaiveDate
  -- `checked_add_signed(Duration::days(n))`.
  pub checked_add_days : NaiveDate → ℤ → Option NaiveDate
  pub from_num_seconds_from_midnight_opt : ℕ → ℕ → Option NaiveTime
  pub year : NaiveDate → ℤ
  pub month : NaiveDate → ℕ
  pub day : NaiveDate → ℕ
  pub num_seconds_from_midnight : NaiveTime → ℕ
  pub hour : NaiveTime → ℕ
  pub minute : NaiveTime → ℕ
  pub second : NaiveTime → ℕ
  pub nanosecond : NaiveTime → ℕ
  -- `NaiveDateTime::new` and its parts.
  pub date_time : NaiveDate → NaiveTime → NaiveDateTime
  pub date_of : NaiveDateTime → NaiveDate
  pub time_of : NaiveDateTime → NaiveTime
  -- An offset by its seconds east.
  pub east_opt : ℤ → Option FixedOffset
  pub local_minus_utc : FixedOffset → ℤ
  pub from_naive_utc_and_offset : NaiveDateTime → FixedOffset → DateTime
  pub naive_utc : DateTime → NaiveDateTime
  pub offset : DateTime → FixedOffset
  pub timestamp : DateTime → ℤ
  pub timestamp_subsec_nanos : DateTime → ℕ

-- What chrono documents of these: a day number, a time of day and an offset are what their parts
-- say, and a time of day other than a leap second is accepted.
pub record ChronoLaws (c : Chrono) : Type 0 where
  pub days : (d : c.NaiveDate) → c.from_num_days_from_ce_opt (c.num_days_from_ce d) ≡ some d
  pub seconds :
      (s n : ℕ) (v : c.NaiveTime)
      → c.from_num_seconds_from_midnight_opt s n ≡ some v
      → c.num_seconds_from_midnight v ≡ s
  pub nanos :
      (s n : ℕ) (v : c.NaiveTime)
      → c.from_num_seconds_from_midnight_opt s n ≡ some v
      → c.nanosecond v ≡ n
  pub time_total :
      (s n : ℕ)
      → s < 86400
      → n < 1000000000
      → (v : c.NaiveTime) × (c.from_num_seconds_from_midnight_opt s n ≡ some v)
  pub within_day : (v : c.NaiveTime) → c.num_seconds_from_midnight v < 86400
  pub clock :
      (v : c.NaiveTime)
      → c.num_seconds_from_midnight v ≡ c.hour v * 3600 + c.minute v * 60 + c.second v
  pub date_part : (d : c.NaiveDate) (v : c.NaiveTime) → c.date_of (c.date_time d v) ≡ d
  pub time_part : (d : c.NaiveDate) (v : c.NaiveTime) → c.time_of (c.date_time d v) ≡ v
  pub east : (o : c.FixedOffset) → c.east_opt (c.local_minus_utc o) ≡ some o
  -- There is an offset of zero.
  pub utc : (o : c.FixedOffset) × (c.local_minus_utc o ≡ pos 0)
  pub utc_part :
      (dt : c.NaiveDateTime) (o : c.FixedOffset)
      → c.naive_utc (c.from_naive_utc_and_offset dt o) ≡ dt
  pub offset_part :
      (dt : c.NaiveDateTime) (o : c.FixedOffset) → c.offset (c.from_naive_utc_and_offset dt o) ≡ o

-- Times of day of the concrete instance.
pub record TimeOfDay : Type 0 where
  pub secs : ℕ
  pub nanos : ℕ
  pub fits : secs < 86400

abbrev accept_time : ℕ → ℕ → Option TimeOfDay
accept_time s n = elim (dec_lt s 86400) [
  | yes h ↦ if ltb n 2000000000 then some (record { secs = s; nanos = n; fits = h }) else none
  | no h ↦ none
]

-- Dates by their numbers, and civil dates by a plain count.
abbrev pub plain_chrono : Chrono
plain_chrono = record {
  NaiveDate = ℤ;
  NaiveTime = TimeOfDay;
  NaiveDateTime = ℤ × TimeOfDay;
  FixedOffset = ℤ;
  DateTime = (ℤ × TimeOfDay) × ℤ;
  from_num_days_from_ce_opt = λ n. some n;
  num_days_from_ce = λ d. d;
  from_ymd_opt = λ y m d. some (y +ℤ pos (m + d));
  checked_add_days = λ d n. some (d +ℤ n);
  from_num_seconds_from_midnight_opt = accept_time;
  year = λ d. d;
  month = λ d. 1;
  day = λ d. 1;
  num_seconds_from_midnight = λ v. v.secs;
  hour = λ v. v.secs / 3600;
  minute = λ v. v.secs / 60 % 60;
  second = λ v. v.secs % 60;
  nanosecond = λ v. v.nanos;
  date_time = λ d v. (d, v);
  date_of = λ dt. dt.0;
  time_of = λ dt. dt.1;
  east_opt = λ n. some n;
  local_minus_utc = λ o. o;
  from_naive_utc_and_offset = λ dt o. (dt, o);
  naive_utc = λ dt. dt.0;
  offset = λ dt. dt.1;
  timestamp = λ dt. scale_ℤ dt.0.0 86400 +ℤ pos dt.0.1.secs;
  timestamp_subsec_nanos = λ dt. dt.0.1.nanos;
}

accept_time-secs : (s n : ℕ) (v : TimeOfDay) → accept_time s n ≡ some v → v.secs ≡ s
accept_time-secs s n v h = ground arith

accept_time-nanos : (s n : ℕ) (v : TimeOfDay) → accept_time s n ≡ some v → v.nanos ≡ n
accept_time-nanos s n v h = ground arith

accept_time-total :
    (s n : ℕ) → s < 86400 → n < 1000000000 → (v : TimeOfDay) × (accept_time s n ≡ some v)
accept_time-total s n hs hn =
    elim (dec_lt s 86400)
      as (λ b.
        (v : TimeOfDay) × ((elim b as (λ _. Option TimeOfDay) [
          | yes h ↦
              if ltb n 2000000000 then some (record { secs = s; nanos = n; fits = h }) else none
          | no h ↦ none
        ])
          ≡ some v)) [
            | yes h ↦ (record { secs = s; nanos = n; fits = h }, ground arith)
            | no h ↦ absurd (h hs)
          ]

pub plain-ChronoLaws : ChronoLaws plain_chrono
plain-ChronoLaws = record {
  days = λ d. refl;
  seconds = accept_time-secs;
  nanos = accept_time-nanos;
  time_total = accept_time-total;
  within_day = λ v. v.fits;
  clock = λ v. omega arith;
  date_part = λ d v. refl;
  time_part = λ d v. refl;
  east = λ o. refl;
  utc = (pos 0, refl);
  utc_part = λ dt o. refl;
  offset_part = λ dt o. refl;
}
