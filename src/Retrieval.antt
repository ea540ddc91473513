-- ===== src/Retrieval.antt =====
-- internal/retrieval: the fusion of ranked lists and the order that a language model gives.
pub mod Rerank
pub mod Fuse
mod Tests
