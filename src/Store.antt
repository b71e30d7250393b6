-- ===== src/Store.antt =====
-- agent/src/store: the durable store.
pub mod Keys
pub mod Event
pub mod Records
pub mod Db
pub mod Log
pub mod Rewrite
pub mod Entities
pub mod Sources
pub mod Triage
pub mod Schema
pub mod Regroup
pub mod Access
