-- ===== src/Db.antt =====
-- jw-swarm-fleet-manager/src/db.rs and migrations/*.sql: the SQLite tables and the statements on
-- them. Each file below models some tables; a statement that fails changes nothing.
pub mod Schema
pub mod Nodes
pub mod Ledger
pub mod Tokens
pub mod Sessions
