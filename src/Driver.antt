-- ===== src/Driver.antt =====
-- What the crate takes from its dependencies: the payload types of mssql-tds and their conversions
-- as a record `Tds` that the rest of the development takes as a parameter, and the shapes that the
-- crate's own matches spell out (`ColumnValues`, `SqlType`, `TdsDataType`) as data types.
mod Values
mod Types
pub use Values.*
pub use Types.*
