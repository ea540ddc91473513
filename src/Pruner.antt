-- ===== src/Pruner.antt =====
-- internal/pruner: which facts a later version supersedes.
pub mod Supersede
