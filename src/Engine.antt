-- ===== src/Engine.antt =====
-- Package engine.
pub mod Validation
pub mod Consumer
pub mod LedgerConsumer
pub mod Service
pub mod Pipeline
