-- ===== src/Postgres.antt =====
-- Package postgresstore: the schema of migrations/, the SQL statements of the stores, and the
-- transactions that run them.
pub mod Connections
pub mod Schema
pub mod Statements
pub mod Transaction
pub mod Numbering
pub mod RowLock
pub mod AntiSnipe
pub mod History
pub mod Isolation
pub mod Locks
pub mod AuctionLog
pub mod NativeSequence
pub mod Outbox
mod Tests
