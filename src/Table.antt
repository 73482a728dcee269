-- ===== src/Table.antt =====
-- An SQLite table as the list of its rows in rowid order: the statements that src/store.rs issues.
-- A table with a text primary key is read through the function that gives a row's key.
mod Laws
mod Keyed
unfoldable pub use Laws.*
unfoldable pub use Keyed.*
