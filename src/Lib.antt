-- ===== src/Lib.antt =====
-- DataLooker is a desktop client for PostgreSQL and BigQuery. Its core is the Rust program of
-- src-tauri/src: drivers that write and run statements, registries of what is open or running, the
-- use cases that the window and an agent call, and the language servers beside them. This library
-- models the parts that decide something.
--
-- How the parts interact, and where each one is modelled:
-- - Lsp/Framing: src-tauri/src/lsp/framing.rs, `read` and `write`. The stream is the list of bytes
--   that have not been read. The loop over the header lines runs on fuel, one round more than there
--   are bytes, since each round takes a byte or ends.
-- - Lsp/Registry: `LspRegistry` of src-tauri/src/lsp/mod.rs, with the operations of others between the
--   two halves of a start as a list.
-- - Bigquery/Words and Bigquery/Risks: src-tauri/src/drivers/bigquery/risks.rs, and `risks` of mod.rs
--   beside it. The lexer's loop runs on one step a character. Bigquery/Quote: `quote` of preview.rs.
-- - Bigquery/Api, Bigquery/Value, Bigquery/Query: api.rs, value.rs and query.rs beside it. The requests are
--   a record of calls on a server's state, each of which may come to nothing since the reader
--   cancels. The loops over a job's answers and pages run on fuel; one more than there are answers
--   and pages is enough.
-- - Bigquery/Preview, Bigquery/Estimate, Bigquery/Schema: preview.rs, estimate.rs and schema.rs, over
--   these.
-- - Db: the tables of src-tauri/migrations as rows, and src-tauri/src/db. Db/Tabs, Db/History and
--   Db/Templates are tabs.rs, history.rs and template.rs, with the use cases of src-tauri/src/app that
--   call them. What a call of SQLite refuses is a parameter.
-- - Postgres/Quote, Postgres/Edit: `quote` of src-tauri/src/drivers/postgres/mod.rs, and edit.rs, where
--   the edits of a table become a plan of statements. Rendering a statement answers none where the
--   source would panic.
-- - Postgres/Server, Postgres/Transaction: transaction.rs, and `apply` of edit.rs, which runs the plan.
--   The server is a record of operations, with laws that say what PostgreSQL documents of
--   transactions, and of an `INSERT`, an `UPDATE` or a `DELETE` inside one.
-- - Postgres/Session: `run_on` of mod.rs, through which all the work on a connection goes.
-- - Postgres/Explain, Postgres/Risks, Postgres/Ddl, Postgres/Preview: explain.rs, risks.rs, ddl.rs and
--   preview.rs. A parse tree of `pg_query` is data with what the source reads of it.
-- - Sessions: `SessionRegistry` of src-tauri/src/drivers/session.rs. A caller's `get` is two critical
--   sections, with the operations of others between them as a list.
-- - Dispatch: `Session` beside it, over a record of what the drivers do. Runs: query.rs, agent_queries.rs
--   and history.rs of src-tauri/src/app, which put a session, the registry of queries and the log
--   together; a wait that is over is a server's state that the work was dropped in.
-- - Syntax: src-tauri/src/app/syntax.rs, its offsets in bytes.
-- - Connecting: what saving and deleting a connection do to the registries of Sessions, Lsp/Registry,
--   Completion and Registries, of connections.rs and shell.rs in src-tauri/src/app.
-- - Shell: src-tauri/src/shell/session.rs, a running command and its watcher as a step
--   relation, in which the watcher may be dropped while it waits.
-- - Connections, Handoffs, Registries, Completion: connections.rs, handoffs.rs, query.rs and
--   completion.rs of src-tauri/src/app, with src-tauri/src/shell/mod.rs.
-- - Secrets: `Bundled` of src-tauri/src/secrets.rs, over a keychain with its documented laws.
-- - Drivers, Error, Json: the types that these share. Map is `HashMap` as an association list, Text is a
--   string as its code points, with UTF-8 and UTF-16 in Text/Utf8. Prelude has lists and tests on
--   native numbers.
--
-- Numbers are unbounded where the source's type cannot be exceeded by a length in memory; offsets in
-- UTF-16 units and the count of the statements of a save wrap at 32 bits, and the numbers of
-- placeholders are read back with the bound of `usize`.
--
-- Not modelled: the window (TypeScript), the analyzer (C++), HTTP and SQL that is sent as it stands,
-- processes, and the glue of commands.
pub mod Prelude
pub mod Text
pub mod Map
pub mod Error
pub mod Lsp
pub mod Drivers
pub mod Json
pub mod Bigquery
pub mod Postgres
pub mod Connections
pub mod Sessions
pub mod Handoffs
pub mod Registries
pub mod Completion
pub mod Secrets
pub mod Db
pub mod Dispatch
pub mod Runs
pub mod Syntax
pub mod Shell
pub mod Connecting
