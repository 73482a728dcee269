-- ===== src/Store/Queue.antt =====
-- The durable queue of thumbnails, `thumbnail_retries`, against `transactions`: the invariant that
-- every operation of the store keeps.
use square_uni_fi_protect_in.Common.{◌≡◌, String, is_some, is_some_and}
use square_uni_fi_protect_in.Table.{IsUnique}
use square_uni_fi_protect_in.Schema.{Db, tx_key, retry_key, find_tx, find_retry, is_runnable}

-- Keys are unique, and a transaction has a queue entry exactly when it still lacks a thumbnail that
-- could be captured.
pub record IsConsistent (db : Db) : Type 0 where
  pub tx_unique : IsUnique tx_key db.transactions
  pub retry_unique : IsUnique retry_key db.retries
  pub exact : (id : String) → is_some (find_retry id db) ≡ is_some_and (find_tx id db) is_runnable
