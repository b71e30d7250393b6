-- ===== src/Ingest.antt =====
-- agent/src/ingest: enrichment, the writer and the compactor.
pub mod Compactor
pub mod Normalize
pub mod Fields
pub mod UserAgent
pub mod Exception
pub mod Enrich
pub mod Pipeline
