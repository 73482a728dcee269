-- ===== src/Examples.antt =====
-- Concrete databases and calls, on which the theorems are applied.
pub mod Data
mod Feed
pub mod Policies
mod Receipts
mod Motion
pub mod Sales
pub mod Thumbnails
pub mod Alarms
pub mod Logins
pub mod Tokens
pub mod Deliveries
pub mod Exports
