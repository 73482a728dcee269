-- ===== src/Thumbnails.antt =====
-- src/thumbnail.rs and the maintenance of thumbnails in src/store.rs.
pub mod Policy
pub mod Prepare
pub mod Retention
pub mod Files
