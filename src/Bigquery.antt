-- ===== src/Bigquery.antt =====
-- src-tauri/src/drivers/bigquery/: reading BigQuery statements by their words, and writing them.
pub mod Words
pub mod Risks
pub mod Quote
pub mod Api
pub mod Value
pub mod Query
pub mod Estimate
pub mod Preview
pub mod Schema
