-- ===== src/Chunker.antt =====
-- internal/chunker/chunker.go and internal/tokenutil: splitting a file's content into chunks. The
-- modules below hold one stage each, and the proofs about the whole.
pub mod Record
pub mod Paragraph
pub mod Links
pub mod Split
pub mod Limit
pub mod File
