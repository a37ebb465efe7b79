-- ===== src/Lib.antt =====
-- Verification of mssql-tiberius-bridge: a facade over the driver mssql-tds with the API of tiberius.
--
-- A `Client` (src/client.rs) owns one driver connection. Its operations are asynchronous: each runs
-- behind an `Operation` guard (src/operation.rs), which marks the connection dead unless the
-- operation completes. Parameters are turned into RPC parameters (src/query.rs), result sets are
-- decoded by a row writer into `Row`s (src/row.rs) over columns (src/column.rs), statements can be
-- prepared on the server (src/prepared.rs), and a deadpool pool recycles clients (src/pool.rs).
-- src/compat/conversion.rs has the value type of tiberius and its conversions. Rows can be read by
-- serde (src/serde_de.rs), Arrow batches loaded (src/bulk_arrow.rs), and connections are described by
-- a `Config` (src/config.rs).
--
-- Prelude           numbers, lists, text as lists of code points, integers.
-- Driver            the driver's data: `TdsDataType`, `ColumnValues`, `SqlType`. Payloads that the
--                   crate does not look into are the fields of a record `Tds`; `TextLaws` are the
--                   driver's documented UTF-8 round trips; `plain` is a concrete driver.
-- Payloads          the driver's constructors, renderings and float casts that dates, numbers and
--                   Arrow cells need, with what `SqlDate` documents; `plain_payloads` is concrete.
-- Error             src/error.rs: `Error`, `Result`, their rendering and source.
-- Column            src/column.rs: `ColumnType`, `Column` and their construction from metadata.
-- Conversion        src/compat/conversion.rs: `ColumnData`, `to_sql`, `into_column_value`,
--                   `column_data_ref`; Decode has `FromSql` and `IntoSql`, Dates, Crates and Exact have
--                   them for chrono, for time and jiff, and for the types that are taken as they are.
-- Config            src/config.rs: `Config`, its setters, the data source string; Context has
--                   `to_client_context`, Datasource the reading of the string.
-- FromSql           src/row.rs: the trait `FromSql` for the scalar targets.
-- Row               src/row.rs: Schema (`RowSchema`, name lookup), Cells (`Row`, access, the cache of
--                   compatibility values, equality), Writer (`BridgeRowWriter`).
-- Query             src/query.rs: ToSql, Params (`build_params`), Results (`QueryResult`,
--                   `RowStream`).
-- Task              asynchronous code: a function of the connection and of the number of awaited
--                   driver calls that complete before the caller drops the future.
-- Connection        the driver's `TdsClient`: an abstract state with the operations the crate calls.
-- Operation         src/operation.rs: the guard, its completion and its drop.
-- Prepared          src/prepared.rs: preparing, and Declaration (the parameter declarations).
-- Client            src/client.rs: the operations; Collect has the loops over results.
-- Stream            src/client.rs `query_compat` and src/compat.rs: the item stream of a query as a state
--                   machine, looking ahead, and collecting; Buffered and Collected relate it to the
--                   buffered query. Flat has the row-only streams (`query_streamed`), which Flattened
--                   relates to the buffered query, and Bound the `Query` of src/compat.rs.
-- Pool              src/pool.rs: the recycling of connections; Isolation has two borrowers of one.
-- Bulk              src/bulk.rs: the bulk insert builder, its rows, and how they are sent; Build has the
--                   rows of tuples and the inserts of src/client.rs.
-- Arrow             src/bulk_arrow.rs: arrays, Cell (`arrow_value_to_column_value`), Decimal
--                   (`format_decimal128`), Rows (`ArrowBulkRow`, `send_arrow_batches`), Blank (nulls
--                   beside zeros).
-- Temporal          src/row.rs and src/query.rs, dates and times: Chrono and Crates are what is called
--                   of chrono, time and jiff; FromSql reads cells, ToSql makes parameters.
-- Decimal           src/query.rs and src/row.rs: decimals of rust_decimal and MONEY cells.
-- Json              src/query.rs: the values of serde_json as parameters.
-- Vector            src/vector.rs: `VectorValue` and its conversions.
-- Serde             src/serde_de.rs: Visit (what a visitor is shown), Cell (a cell as a deserializer),
--                   Access (a row as a map and as a sequence), Entries (visiting all of a row).
-- Tests             a driver over prepared answers, and the statements above at concrete data.
--
-- Futures. An `await` on the driver either finishes, or the future is dropped there: a drop is always
-- of a future that was polled. One that is dropped before its first poll has run nothing and is
-- outside the model. The field
-- `interrupted` of a connection is what a dropped driver call leaves behind, about which nothing is
-- assumed. The awaits left are also what loops that await recur on. The loops over result sets
-- await a varying number of times in a round and take fuel, one more than the awaits left, which is
-- enough since each round that goes on awaits at least once (Client/Fuel). A poll of a row-only
-- stream takes one more than that, since the first item may have been peeked (Stream/Costs). The
-- driver's own internal loops are not seen.
--
-- Machine integers. Cells and parameters carry integers of the driver's widths. Where the code
-- computes with them, in dates, times, Arrow cells and serde, each cast and product wraps, and each
-- checked or saturating operation fails or stops, at the written width (Prelude/Int). Row counts
-- and indices are counters that stay below the length of a collection. `ExecuteResult::total` is modelled where its sum fits in a `u64`.
--
-- Not modelled: connecting and TLS (I/O), `Debug` and logging output. Error messages that embed a
-- `Debug` rendering, or an error of the standard library, are given without it. Lifetimes and
-- borrowing (`Cow`, `&str`) are erased.
pub mod Prelude
pub mod Decimal
pub mod Driver
pub mod Error
pub mod Column
pub mod Config
pub mod Conversion
pub mod FromSql
pub mod Row
pub mod Query
pub mod Task
pub mod Temporal
pub mod Vector
pub mod Connection
pub mod Json
pub mod Operation
pub mod Payloads
pub mod Prepared
pub mod Client
pub mod Serde
pub mod Stream
pub mod Pool
pub mod Arrow
pub mod Bulk
pub mod Tests
