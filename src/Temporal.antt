-- ===== src/Temporal.antt =====
-- src/row.rs and src/query.rs, dates and times: the conversions of chrono's, time's and jiff's types
-- from cells and to parameters. The three crates are records of what is called of them, with what
-- they document as laws.
pub mod Chrono
pub mod Crates
pub mod FromSql
pub mod ToSql
pub mod Laws
