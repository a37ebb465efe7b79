-- ===== src/Query.antt =====
-- src/query.rs: parameters as the driver takes them, and the results of queries.
pub mod ToSql
pub mod Params
pub mod Results
pub mod Laws
