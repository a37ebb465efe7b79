-- ===== src/Row.antt =====
-- src/row.rs: rows, their schema, and access to cells by position and by name.
pub mod Schema
pub mod Cells
pub mod Writer
pub mod Laws
pub mod Access
