-- ===== src/Store.antt =====
-- src/store.rs: the operations of the store on the tables of `Schema`. The proofs are in the modules
-- below each part.
pub mod Guards
pub mod Cameras
pub mod Settings
pub mod RetryRows
pub mod Ordering
pub mod Retries
pub mod Alarms
pub mod Notes
pub mod Oauth
pub mod Watermarks
pub mod Webhooks
pub mod Motion
pub mod Evidence
pub mod Feed
pub mod Steps
pub mod Queue
pub mod Ingest
