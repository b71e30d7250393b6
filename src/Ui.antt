-- ===== src/Ui.antt =====
-- The state of the dashboard's filters: ui/src/filters.rs. The URL of a view holds it as query
-- parameters.
pub mod Dims
pub mod Times
pub mod Printer
pub mod Query
pub mod FilterSet
pub mod Agreement
