-- ===== src/Serde.antt =====
-- src/serde_de.rs: rows and cells as serde deserializers. A visitor is the function of what it is
-- shown, and a seed the function of the deserializer that it is handed.
pub mod Visit
pub mod Cell
pub mod Access
pub mod Laws
pub mod Hints
pub mod Entries
