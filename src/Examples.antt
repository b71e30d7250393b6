-- ===== src/Examples.antt =====
-- Instances of the interfaces, and the theorems at concrete inputs.
pub mod Tables
pub mod Codecs
pub mod Logs
pub mod Metadata
pub mod Regroup
pub mod Requests
pub mod Writer
pub mod Access
pub mod Frames
pub mod Queries
pub mod Projects
pub mod Trends
