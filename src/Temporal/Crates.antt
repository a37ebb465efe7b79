-- ===== src/Temporal/Crates.antt =====
-- The crates time and jiff, as far as row.rs and query.rs call them.
use mssql_tiberius_bridge.Prelude.{ℕ, Option, ℤ}

-- `Month` is its number.
pub record TimeCrate : Type 1 where
  pub Date : Type 0
  pub Time : Type 0
  pub PrimitiveDateTime : Type 0
  pub OffsetDateTime : Type 0
  pub UtcOffset : Type 0
  pub month_try_from : ℕ → Option ℕ
  pub from_calendar_date : ℤ → ℕ → ℕ → Option Date
  pub year : Date → ℤ
  pub month : Date → ℕ
  pub day : Date → ℕ
  pub from_hms_nano : ℕ → ℕ → ℕ → ℕ → Option Time
  pub hour : Time → ℕ
  pub minute : Time → ℕ
  pub second : Time → ℕ
  pub nanosecond : Time → ℕ
  -- `PrimitiveDateTime::new` and its parts.
  pub primitive : Date → Time → PrimitiveDateTime
  pub date_of : PrimitiveDateTime → Date
  pub time_of : PrimitiveDateTime → Time
  pub assume_utc : PrimitiveDateTime → OffsetDateTime
  pub to_offset : OffsetDateTime → UtcOffset → OffsetDateTime
  -- The parts of an `OffsetDateTime` in its own offset.
  pub offset_date : OffsetDateTime → Date
  pub offset_time : OffsetDateTime → Time
  pub offset : OffsetDateTime → UtcOffset
  pub utc : UtcOffset
  pub from_whole_seconds : ℤ → Option UtcOffset
  pub whole_seconds : UtcOffset → ℤ

pub record JiffCrate : Type 1 where
  pub Date : Type 0
  pub Time : Type 0
  pub DateTime : Type 0
  pub Timestamp : Type 0
  pub Zoned : Type 0
  pub Offset : Type 0
  pub new_date : ℤ → ℤ → ℤ → Option Date
  pub year : Date → ℤ
  pub month : Date → ℤ
  pub day : Date → ℤ
  pub new_time : ℤ → ℤ → ℤ → ℤ → Option Time
  pub hour : Time → ℤ
  pub minute : Time → ℤ
  pub second : Time → ℤ
  pub subsec_nanosecond : Time → ℤ
  pub new_datetime : ℤ → ℤ → ℤ → ℤ → ℤ → ℤ → ℤ → Option DateTime
  pub date_of : DateTime → Date
  pub time_of : DateTime → Time
  pub new_timestamp : ℤ → ℤ → Option Timestamp
  -- `TimeZone::UTC.to_datetime`.
  pub to_utc_datetime : Timestamp → DateTime
  -- `Offset::from_seconds`, and `to_zoned` in the time zone of an offset.
  pub offset_from_seconds : ℤ → Option Offset
  pub to_zoned : Timestamp → Offset → Zoned
  pub timestamp : Zoned → Timestamp
  -- `zoned.offset().seconds()`.
  pub offset_seconds : Zoned → ℤ
