-- ===== src/Web.antt =====
-- src/web.rs: the login handler with its throttle, and the cells of the CSV export.
pub mod Login
pub mod Csv
