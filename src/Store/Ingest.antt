-- ===== src/Store/Ingest.antt =====
-- src/store.rs, `upsert_payment` and `suppress_historical_alarm`: what one payment of Square does to the
-- database. `existing` is the row of the payment's id before the call.
pub mod Rows
pub mod Queue
pub mod Sales
use mathlib.Core.Option
use square_uni_fi_protect_in.Common.{
  ℕ, ◌+◌, Bool, false, not, ◌&&◌, ◌||◌, Option, none, some, List, [], ◌∷◌, ◌++◌, String, ℤ, pos,
  ltb_ℤ, leb_ℤ, eqb_ℤ, max_ℤ, if◌then◌else◌, str_eq, str_is_empty, opt_eq, opt_is,
  eq_ignore_ascii_case, is_some, is_none, is_some_and, is_none_or, unwrap_or, parse_i64, any,
  AppResult, ok, ◌>>=◌, ◌>>◌,
}
use square_uni_fi_protect_in.Table.{find, first_where, update_where, delete_where}
use square_uni_fi_protect_in.Schema.{
  CameraMappingEntry, PaymentFacts, TransactionRow, SettingRow, FeedSnapshot, RetryRow, Db, idle,
  sent, is_sent, tx_key, find_tx,
}
use square_uni_fi_protect_in.Store.Guards.{validate_payment, is_local_filename}
use square_uni_fi_protect_in.Store.Cameras.{camera_for_location}
use square_uni_fi_protect_in.Store.Settings.{write_plain_setting}
use square_uni_fi_protect_in.Store.RetryRows.{requeue, enqueue_if_absent, dequeue}

module _ (payment : PaymentFacts) (existing : Option TransactionRow) where
  unfoldable pub is_stale : Bool
  is_stale = is_some_and existing (λ e. ltb_ℤ payment.updated_ts_ms e.updated_ts_ms)

  unfoldable pub accepted_location_id : String
  accepted_location_id =
      if str_is_empty payment.location_id
      then unwrap_or (Option.map (λ e. e.location_id) existing) ""
      else payment.location_id

  unfoldable pub accepted_device_id : String
  accepted_device_id =
      if str_is_empty payment.device_id
      then unwrap_or (Option.map (λ e. e.device_id) existing) ""
      else payment.device_id

  unfoldable pub source_changed : Bool
  source_changed = is_some_and existing (λ e.
      (not (str_is_empty payment.location_id) && not (str_eq payment.location_id e.location_id))
      || (not (str_is_empty payment.device_id) && not (str_eq payment.device_id e.device_id)))

  unfoldable pub preserve_captured_evidence : Bool → Bool
  unfolding source_changed
  preserve_captured_evidence retired =
      not retired
      && is_some_and existing
          (λ e. is_some e.thumbnail_path && (eqb_ℤ e.ts_ms payment.ts_ms && not source_changed))

  -- The camera to store, given the mapping of the register.
  unfoldable pub mapped_camera : Bool → Option CameraMappingEntry → Option String
  unfolding preserve_captured_evidence
  mapped_camera retired mapping =
      if preserve_captured_evidence retired
      then elim existing [ none ↦ none | some e ↦ e.camera_id ]
      else Option.map (λ m. m.camera_id) mapping

  unfoldable pub evidence_changed : Option String → Bool
  evidence_changed camera =
      is_some_and existing
        (λ e. not (eqb_ℤ e.ts_ms payment.ts_ms) || not (opt_eq e.camera_id camera))

  unfoldable pub storage_retired : Bool
  storage_retired = is_some_and existing (λ e. is_some e.thumbnail_retired_at)

  unfoldable pub retained_thumbnail : Option String → Option String
  unfolding evidence_changed storage_retired
  retained_thumbnail camera =
      if evidence_changed camera || storage_retired
      then none
      else elim existing [ none ↦ none | some e ↦ e.thumbnail_path ]

  unfoldable pub superseded_thumbnail : Option String → Option String
  unfolding evidence_changed
  superseded_thumbnail camera =
      if evidence_changed camera
      then elim existing [ none ↦ none | some e ↦ e.thumbnail_path ]
      else none

  -- The row that the INSERT offers; the columns that it does not name have their defaults.
  unfoldable pub offered_row : Option String → TransactionRow
  unfolding accepted_location_id accepted_device_id retained_thumbnail
  offered_row camera = record {
    id = payment.id;
    created_at = payment.created_at;
    ts_ms = payment.ts_ms;
    updated_at = payment.updated_at;
    updated_ts_ms = payment.updated_ts_ms;
    amount = payment.amount;
    currency = payment.currency;
    refunded_amount = payment.refunded_amount;
    status = payment.status;
    location_id = accepted_location_id;
    device_id = accepted_device_id;
    device_name = payment.device_name;
    card_last4 = payment.card_last4;
    receipt_url = payment.receipt_url;
    camera_id = camera;
    thumbnail_path = retained_thumbnail camera;
    note = "";
    note_revision = pos 0;
    thumbnail_bytes = none;
    thumbnail_policy_revision = pos 0;
    thumbnail_retired_at = none;
    thumbnail_retired_reason = "";
    alarm_state = idle;
    alarm_claim_token = none;
    alarm_claimed_at = none;
    alarm_delivered_at_ms = none;
  }

  -- The time that decides whether a completed sale is older than the alarm feature.
  unfoldable pub completion_reference : Option ℤ
  completion_reference =
      if eq_ignore_ascii_case payment.status "COMPLETED"
      then elim existing [
        | none ↦ some payment.ts_ms
        | some e ↦
            if not (eq_ignore_ascii_case e.status "COMPLETED")
            then some payment.updated_ts_ms
            else none
      ]
      else none

  unfoldable pub timestamp_changed : Bool
  timestamp_changed = is_some_and existing (λ e. not (eqb_ℤ e.ts_ms payment.ts_ms))

  -- A column that filtered pages search has changed.
  unfoldable pub searched_facts_changed : Bool
  unfolding accepted_location_id accepted_device_id
  searched_facts_changed = is_some_and existing (λ e.
      let accepted_device_name =
        if not (str_is_empty payment.device_id) && not (str_eq payment.device_id e.device_id)
        then payment.device_name
        else if str_is_empty payment.device_name
        then e.device_name
        else payment.device_name in
      not (str_eq e.status payment.status)
      || not (str_eq e.location_id accepted_location_id)
      || not (str_eq e.device_id accepted_device_id)
      || not (str_eq e.device_name accepted_device_name)
      || not (str_eq e.card_last4 payment.card_last4))

-- The DO UPDATE SET clause: `x` is `excluded` and `t` the stored row.
unfoldable pub merge_row : TransactionRow → TransactionRow → TransactionRow
merge_row x t = record t {
  created_at = x.created_at;
  ts_ms = x.ts_ms;
  updated_at = x.updated_at;
  updated_ts_ms = x.updated_ts_ms;
  amount = x.amount;
  currency = x.currency;
  refunded_amount = max_ℤ t.refunded_amount x.refunded_amount;
  status = x.status;
  location_id = x.location_id;
  device_id = if str_is_empty x.device_id then t.device_id else x.device_id;
  device_name =
      if not (str_is_empty x.device_id) && not (str_eq x.device_id t.device_id)
      then x.device_name
      else if str_is_empty x.device_name
      then t.device_name
      else x.device_name;
  card_last4 = x.card_last4;
  receipt_url = x.receipt_url;
  camera_id = x.camera_id;
  thumbnail_path = x.thumbnail_path;
}

-- INSERT … ON CONFLICT(id) DO UPDATE … WHERE excluded.updated_ts_ms >= transactions.updated_ts_ms.
unfoldable pub write_row : TransactionRow → List TransactionRow → List TransactionRow
write_row x rows = elim (find tx_key x.id rows) [
  | none ↦ rows ++ x ∷ []
  | some old ↦
      update_where (λ t. str_eq t.id x.id && leb_ℤ t.updated_ts_ms x.updated_ts_ms) (merge_row x)
        rows
]

-- The setting `protect.alarm_enabled_after_ms`, where it is plain text and a number.
unfoldable pub enabled_after : List SettingRow → Option ℤ
enabled_after rows =
    elim (first_where (λ s. str_eq s.key "protect.alarm_enabled_after_ms" && not s.encrypted)
      rows) [ none ↦ none | some s ↦ parse_i64 s.value ]

-- SET alarm_state='sent', alarm_claim_token=NULL, alarm_claimed_at=NULL.
unfoldable pub silence : TransactionRow → TransactionRow
silence t = record t { alarm_state = sent; alarm_claim_token = none; alarm_claimed_at = none }

-- The completion is not covered by the alarm feature: it is off, or was enabled later.
unfoldable pub is_historical : PaymentFacts → Option TransactionRow → List SettingRow → Bool
unfolding completion_reference
is_historical payment existing settings =
    is_some_and (completion_reference payment existing)
      (λ value. is_none_or (enabled_after settings) (λ boundary. ltb_ℤ value boundary))

unfoldable pub suppress_historical_alarm :
    PaymentFacts
    → Option TransactionRow
    → List SettingRow
    → List TransactionRow
    → List TransactionRow
suppress_historical_alarm payment existing settings rows =
    if is_historical payment existing settings
    then update_where (λ t. str_eq t.id payment.id && not (is_sent t.alarm_state)) silence rows
    else rows

-- The statement on `thumbnail_retries`: queue, keep or drop the capture of the payment.
unfoldable pub requeue_capture :
    PaymentFacts → Option TransactionRow → Option String → List RetryRow → List RetryRow
requeue_capture payment existing camera retries =
    if is_some camera
      && (is_none (retained_thumbnail payment existing camera)
          && not (storage_retired payment existing))
    then (if evidence_changed payment existing camera
        then requeue payment.id retries
        else enqueue_if_absent payment.id retries)
    else dequeue payment.id retries

-- Page snapshots that the change outdates are deleted: all of them, or the filtered ones.
unfoldable pub expire_snapshots :
    PaymentFacts → Option TransactionRow → List FeedSnapshot → List FeedSnapshot
expire_snapshots payment existing snapshots =
    let left = if timestamp_changed payment existing then [] else snapshots in
    if searched_facts_changed payment existing
    then delete_where (λ s. not (str_is_empty s.filter_signature)) left
    else left

-- `delete_thumbnail_if_unreferenced`, for a path that may be absent. Deleting succeeds here; a failure is
-- logged by the source and leaves the file.
unfoldable pub delete_if_unreferenced :
    Option String → List TransactionRow → List String → List String
delete_if_unreferenced none rows files = files
delete_if_unreferenced (some path) rows files =
    if not (is_local_filename path) || any (λ t. opt_is t.thumbnail_path path) rows
    then files
    else delete_where (λ name. str_eq name path) files

-- The effect of an accepted payment on every table.
unfoldable pub apply_payment : PaymentFacts → Option TransactionRow → Db → Db
apply_payment payment existing db =
    let retired = any (λ id. str_eq id payment.id) db.evidence_retired in
    let mapping =
      if retired
      then none
      else camera_for_location db.camera_map (accepted_location_id payment existing)
          (accepted_device_id payment existing) in
    let camera = mapped_camera payment existing retired mapping in
    let superseded = superseded_thumbnail payment existing camera in
    let rows =
      suppress_historical_alarm payment existing db.settings
        (write_row (offered_row payment existing camera) db.transactions) in
    record db {
      transactions = rows;
      retries = requeue_capture payment existing camera db.retries;
      order_revision =
          if is_none existing || timestamp_changed payment existing
          then db.order_revision + 1
          else db.order_revision;
      snapshots = expire_snapshots payment existing db.snapshots;
      settings =
          if is_some superseded
          then write_plain_setting "maintenance.orphan_thumbnail_cleanup_pending" (pos 1)
              db.settings
          else db.settings;
      files = delete_if_unreferenced superseded rows db.files;
    }

-- The result tells whether the payment is a new record.
unfoldable pub upsert_payment : PaymentFacts → Db → AppResult (Bool × Db)
upsert_payment payment db = do
  validate_payment payment
  let existing = find_tx payment.id db
  (if is_stale payment existing
      then ok (false, db)
      else ok (is_none existing, apply_payment payment existing db))
