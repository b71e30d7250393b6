-- ===== src/Web.antt =====
-- agent/src/web: the HTTP layer.
pub mod Query
pub mod Auth
pub mod Projects
