-- ===== src/Postgres.antt =====
-- src-tauri/src/drivers/postgres/: statements written for PostgreSQL, and the session they run on.
mod Tests
pub mod Quote
pub mod Edit
pub mod Preview
pub mod Ddl
pub mod Server
pub mod Transaction
pub mod Session
pub mod Explain
pub mod Risks
