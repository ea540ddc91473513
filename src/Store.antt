-- ===== src/Store.antt =====
-- internal/embeddedstore: the vector store that stands in for Qdrant, over SQLite tables. The modules
-- below hold its encodings, its tables, and its operations.
pub mod Payload
pub mod PointId
pub mod Vector
pub mod Filter
pub mod Table
pub mod Database
mod Tests
