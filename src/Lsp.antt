-- ===== src/Lsp.antt =====
-- The language server, src/lsp: which scans run, and what a finished scan changes.
pub mod Schedule
pub mod Server
