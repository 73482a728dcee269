-- ===== src/Lib.antt =====
-- Square and UniFi Protect integration: the store that keeps Square payments, the camera images that
-- belong to them and the alarms that they trigger.
--
-- Parts, and how they meet. The service polls Square and receives its webhooks; each payment enters
-- through `Store::upsert_payment` of src/store.rs, which also queues the capture of an image. Workers
-- take captures from the queue under leases and report completion or failure; the alarm sender claims
-- completed sales and reports deliveries. All state but the table of failed logins is in SQLite behind
-- one mutex, so the calls of all threads form one sequence; random tokens, clock readings and
-- file sizes are arguments of the calls.
--
-- Files:
-- - Common: Boolean tests, integers, lists, text, decimal numbers, and `AppResult` of src/error.rs.
-- - Table: a table as a list of rows in rowid order, and the statements on it.
-- - Schema: the rows of migrations/0001_current.sql and the values of src/models.rs.
-- - Store, src/store.rs: Guards (validate_*), Cameras (camera_for_location), Settings
--   (setting_value, write_setting), Ingest (upsert_payment), RetryRows and Retries (the table
--   thumbnail_retries and the calls of the workers), Alarms, Notes, Evidence (mappings,
--   retirement, reconciliation, account switches), Queue (the invariant), Steps (histories of calls),
--   Feed (list_transactions_page and its snapshots),
--   Oauth (states of authorizations, refresh of the Square tokens), Watermarks (polling), Webhooks (receipts and counters)
--   and Motion (the motion webhook's settings and token).
-- - Accounts, src/store.rs: users, sessions, password resets and the login audit.
-- - Web, src/web.rs: the login handler and its throttle, and the cells of the CSV export.
-- - Sync, src/sync.rs: the drain of pending alarms (retry_alarms, drain_protect_queues).
-- - Thumbnails, src/thumbnail.rs and src/store.rs: Policy (load_policy, update_thumbnail_policy),
--   Prepare (prepare_thumbnail), Retention (the two loops of run_thumbnail_maintenance) and Files
--   (remove_orphan_thumbnails, thumbnail_summary).
-- - Examples: concrete data, on which the theorems are applied.
--
-- Conventions. Integers of 64 bits are unbounded here, since the source compares and stores them and
-- adds small constants; columns of type REAL hold seconds and are natural numbers of microseconds.
-- Counters (attempts, order_revision, auth_revision) and ids are natural numbers; the counters that
-- the settings hold as text stay below the largest i64, where SQLite would go on in floating point. Loops are
-- recursion on lists, or on the number of rounds left where the source counts them; only the printing
-- of a number takes fuel, one more than the number, which has fewer digits. A call that fails leaves
-- the database as it was, as the rolled back transaction does.
--
-- Parameters: the cipher of the settings, the hash of tokens, the keyed hash of the feed's filters, the
-- verification of passwords and the compression of images, which libraries compute. Their documented
-- behaviour is a hypothesis where a theorem needs it.
--
-- Not modelled: HTTP, TLS, image encoding and cryptography, which libraries do; migrations of older
-- databases, which run once; motion events and their matching; the polling loop, the other handlers of
-- src/web.rs, the clients of src/clients.rs and the configuration; the browser and menu bar applications.
pub mod Common
pub mod Table
pub mod Schema
pub mod Store
pub mod Accounts
pub mod Web
pub mod Sync
pub mod Thumbnails
pub mod Examples
