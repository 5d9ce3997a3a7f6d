-- ===== src/Lsp.antt =====
-- src-tauri/src/lsp/: talking to language servers.
pub mod Framing
pub mod Registry
