-- ===== src/Store.antt =====
-- The PostgreSQL store, internal/store/postgres.go and store.go: the tables, and each statement as
-- one atomic operation on them. The order of the rows in a table is the order in which the database
-- happens to scan them, and is arbitrary.
mod Errors
mod Tables
mod Threads
mod Tasks
mod AdapterState
pub mod Rows
pub mod Exclusion
pub mod Absorption
pub mod Ownership
pub mod Queue
pub mod State
pub mod Lease
pub mod Snapshot
pub mod Final
pub mod Migrations
pub mod Tests
unfoldable pub use Errors.*
unfoldable pub use Tables.*
unfoldable pub use Threads.*
unfoldable pub use Tasks.*
unfoldable pub use AdapterState.*
