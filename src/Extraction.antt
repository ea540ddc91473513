-- ===== src/Extraction.antt =====
-- internal/extraction: the pause between extractions of a session.
pub mod Cooldown
