-- ===== src/Lsp.antt =====
-- internal/lsp: the framing of messages, the files that a language server has open, and the pool of
-- sessions.
pub mod Framing
pub mod Documents
pub mod Pool
pub mod Requests
