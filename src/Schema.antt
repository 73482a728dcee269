-- ===== src/Schema.antt =====
-- migrations/0001_current.sql and src/models.rs: the rows of the database and the values that pass
-- between the store and its callers. Columns of type REAL hold seconds as floats in the source;
-- here they are whole microseconds. Columns of type INTEGER are signed integers.
use square_uni_fi_protect_in.Common.{
  ℕ, Bool, true, false, ◌&&◌, Option, List, String, ℤ, is_none, is_some, AppResult, ok, err,
}
use square_uni_fi_protect_in.Table.{find}

-- A second and a millisecond, in the unit of the clock.
abbrev pub second : ℕ
second = 1_000_000

abbrev pub millisecond : ℕ
millisecond = 1_000

pub record CameraMappingEntry : Type 0 where
  pub location_id : String
  pub device_id : String
  pub device_name : String
  pub camera_id : String
  pub camera_name : String

pub record PaymentFacts : Type 0 where
  pub id : String
  pub created_at : String
  pub ts_ms : ℤ
  pub updated_at : String
  pub updated_ts_ms : ℤ
  pub amount : ℤ
  pub currency : String
  pub refunded_amount : ℤ
  pub status : String
  pub location_id : String
  pub device_id : String
  pub device_name : String
  pub card_last4 : String
  pub receipt_url : String

-- The values that the source writes to `alarm_state`.
pub data AlarmState : Type 0 where
  idle in_progress sent : AlarmState

abbrev pub is_idle : AlarmState → Bool
is_idle idle = true
is_idle _ = false

abbrev pub is_in_progress : AlarmState → Bool
is_in_progress in_progress = true
is_in_progress _ = false

abbrev pub is_sent : AlarmState → Bool
is_sent sent = true
is_sent _ = false

-- A row of `transactions`. The column `raw` is '{}' in every row and is left out.
pub record TransactionRow : Type 0 where
  pub id : String
  pub created_at : String
  pub ts_ms : ℤ
  pub updated_at : String
  pub updated_ts_ms : ℤ
  pub amount : ℤ
  pub currency : String
  pub refunded_amount : ℤ
  pub status : String
  pub location_id : String
  pub device_id : String
  pub device_name : String
  pub card_last4 : String
  pub receipt_url : String
  pub camera_id : Option String
  pub thumbnail_path : Option String
  pub note : String
  pub note_revision : ℤ
  pub thumbnail_bytes : Option ℤ
  pub thumbnail_policy_revision : ℤ
  pub thumbnail_retired_at : Option ℤ
  pub thumbnail_retired_reason : String
  pub alarm_state : AlarmState
  pub alarm_claim_token : Option String
  pub alarm_claimed_at : Option ℕ
  pub alarm_delivered_at_ms : Option ℤ

-- A row of `thumbnail_retries`.
pub record RetryRow : Type 0 where
  pub transaction_id : String
  pub attempts : ℕ
  pub next_attempt_at : ℕ
  pub lease_token : Option String
  pub lease_expires_at : Option ℕ
  pub last_error : String

pub record SettingRow : Type 0 where
  pub key : String
  pub value : String
  pub encrypted : Bool

pub record WatermarkRow : Type 0 where
  pub location_id : String
  pub polled_through_ms : ℤ

pub record FeedSnapshot : Type 0 where
  pub id : ℕ
  pub order_revision : ℕ
  pub rowid_boundary : ℕ
  pub filter_signature : String
  pub created_at : ℕ
  pub last_accessed_at : ℕ

-- A row of `transaction_feed_order_history`.
pub record OrderHistoryRow : Type 0 where
  pub transaction_id : String
  pub order_revision : ℕ
  pub ts_ms : ℤ

-- A row of `square_webhook_receipts`.
pub record ReceiptRow : Type 0 where
  pub event_key : String
  pub event_type : String
  pub received_at_ms : ℤ
  pub event_created_at_ms : Option ℤ

-- A row of `protect_motion_events`. `device_identifiers` is the list that the column holds as JSON.
pub record MotionRow : Type 0 where
  pub id : ℕ
  pub event_key : String
  pub camera_id : String
  pub camera_name : String
  pub event_ts_ms : ℤ
  pub received_at_ms : ℤ
  pub evaluate_after_ms : ℤ
  pub expires_at_ms : ℤ
  pub match_window_ms : ℤ
  pub delivery_method : String
  pub alarm_name : String
  pub device_identifiers : List String

-- The tables that ingestion, camera evidence, alarms and webhooks work on, and the thumbnail files.
pub record Db : Type 0 where
  pub settings : List SettingRow
  pub camera_map : List CameraMappingEntry
  pub transactions : List TransactionRow
  pub retries : List RetryRow
  -- `protect_evidence_retired`: transaction ids.
  pub evidence_retired : List String
  pub watermarks : List WatermarkRow
  -- `order_revision` of the single row of `transaction_feed_state`.
  pub order_revision : ℕ
  pub snapshots : List FeedSnapshot
  -- The largest id given to a snapshot so far (AUTOINCREMENT).
  pub snapshot_sequence : ℕ
  pub order_history : List OrderHistoryRow
  pub receipts : List ReceiptRow
  pub motion_events : List MotionRow
  -- The names of the regular files in the thumbnail directory.
  pub files : List String

abbrev pub tx_key : TransactionRow → String
tx_key t = t.id

abbrev pub retry_key : RetryRow → String
retry_key r = r.transaction_id

abbrev pub setting_key : SettingRow → String
setting_key s = s.key

abbrev pub watermark_key : WatermarkRow → String
watermark_key w = w.location_id

-- The row with a given primary key.
abbrev pub find_tx : String → Db → Option TransactionRow
find_tx id db = find tx_key id db.transactions

abbrev pub find_retry : String → Db → Option RetryRow
find_retry id db = find retry_key id db.retries

-- A thumbnail is still to be captured: the condition that the queue's queries test.
abbrev pub is_runnable : TransactionRow → Bool
is_runnable t = is_some t.camera_id && (is_none t.thumbnail_path && is_none t.thumbnail_retired_at)

-- The database after a call: a call that fails rolls its transaction back.
abbrev pub after {ℓ} : {A : Type ℓ} → Db → AppResult (A × Db) → Db
after db (ok (a, db')) = db'
after db (err e) = db
