-- ===== src/Store/Ingest/Sales.antt =====
-- What an accepted payment leaves behind: its row, and whether its sale will raise an alarm.
use square_uni_fi_protect_in.Common.{
  ◌≡◌, refl, true, false, Option, none, some, String, leb_ℤ, if◌then◌else◌, str_eq, str_eq_refl,
  upper_is, eq_ignore-upper_is, is_some_and, is_none, arith, ok, pos, Bool, not, ◌&&◌, ◌||◌,
  str_eq_iff, max_ℤ, str_is_empty, is_none_or, Bool-cases, inl, inr, Option-cases,
}
use square_uni_fi_protect_in.Schema.{
  PaymentFacts, TransactionRow, Db, find_tx, tx_key, is_idle, is_sent,
}
use square_uni_fi_protect_in.Table.{find-key}
use square_uni_fi_protect_in.Store.Guards.{validate_payment}
use square_uni_fi_protect_in.Store.Alarms.{is_pending}
use square_uni_fi_protect_in.Store.Ingest.{
  is_stale, offered_row, merge_row, silence, completion_reference, is_historical, enabled_after,
  apply_payment, upsert_payment, accepted_location_id, accepted_device_id,
}
use square_uni_fi_protect_in.Store.Ingest.Rows.{
  stored_row, stored_camera, find_tx-apply_payment, silenced, merged_row,
}

-- What the stored row held before, with the value for a row that is new.
abbrev pub held_before {ℓ} : {A : Type ℓ} → (TransactionRow → A) → A → Option TransactionRow → A
held_before f fallback none = fallback
held_before f fallback (some t) = f t

-- The row holds the facts of the payment: they replace the stored ones, except that refunds never
-- shrink, and an empty location or device leaves the stored one. The note and a retirement stay. The
-- camera, its image and the alarm are left out.
pub record HoldsFacts (payment : PaymentFacts) (existing : Option TransactionRow)
    (row : TransactionRow) : Type 0 where
  id : row.id ≡ payment.id
  created_at : row.created_at ≡ payment.created_at
  ts_ms : row.ts_ms ≡ payment.ts_ms
  updated_at : row.updated_at ≡ payment.updated_at
  updated_ts_ms : row.updated_ts_ms ≡ payment.updated_ts_ms
  amount : row.amount ≡ payment.amount
  currency : row.currency ≡ payment.currency
  refunded_amount :
      row.refunded_amount
      ≡ held_before
          (λ t. max_ℤ t.refunded_amount payment.refunded_amount)
          payment.refunded_amount
          existing
  status : row.status ≡ payment.status
  location_id : row.location_id ≡ (
      if str_is_empty payment.location_id
      then held_before (λ t. t.location_id) "" existing
      else payment.location_id)
  device_id : row.device_id ≡ (
      if str_is_empty payment.device_id
      then held_before (λ t. t.device_id) "" existing
      else payment.device_id)
  device_name :
      row.device_name
      ≡ held_before
          (λ t.
            if str_is_empty payment.device_name
              && (str_is_empty payment.device_id || str_eq payment.device_id t.device_id)
            then t.device_name
            else payment.device_name)
          payment.device_name
          existing
  card_last4 : row.card_last4 ≡ payment.card_last4
  receipt_url : row.receipt_url ≡ payment.receipt_url
  note : row.note ≡ held_before (λ t. t.note) "" existing
  note_revision : row.note_revision ≡ held_before (λ t. t.note_revision) (pos 0) existing
  thumbnail_retired_at :
      row.thumbnail_retired_at ≡ held_before (λ t. t.thumbnail_retired_at) none existing

is_none_or-find_tx :
    (id : String) (db : Db) → is_none_or (find_tx id db) (λ t. str_eq t.id id) ≡ true
is_none_or-find_tx id db = elim (Option-cases (find_tx id db)) [
  | inl e ↦ rw e refl
  | inr (t, e) ↦ rw e ((str_eq_iff t.id id).1 (find-key tx_key id db.transactions t e))
]

-- Silencing the alarm leaves the facts alone.
silenced-HoldsFacts :
    (payment : PaymentFacts) (existing : Option TransactionRow) (historical : Bool)
    (row : TransactionRow)
    → HoldsFacts payment existing row
    → HoldsFacts payment existing (silenced historical row)
unfolding silence
silenced-HoldsFacts payment existing historical row h =
    elim (Bool-cases (historical && not (is_sent row.alarm_state))) [
      | inl e ↦ rw e (record {
        id = h.id;
        created_at = h.created_at;
        ts_ms = h.ts_ms;
        updated_at = h.updated_at;
        updated_ts_ms = h.updated_ts_ms;
        amount = h.amount;
        currency = h.currency;
        refunded_amount = h.refunded_amount;
        status = h.status;
        location_id = h.location_id;
        device_id = h.device_id;
        device_name = h.device_name;
        card_last4 = h.card_last4;
        receipt_url = h.receipt_url;
        note = h.note;
        note_revision = h.note_revision;
        thumbnail_retired_at = h.thumbnail_retired_at;
      })
      | inr e ↦ rw e h
    ]

merged_row-HoldsFacts :
    (payment : PaymentFacts) (existing : Option TransactionRow) (camera : Option String)
    → is_none_or existing (λ t. str_eq t.id payment.id) ≡ true
    → HoldsFacts payment existing (merged_row (offered_row payment existing camera) existing)
unfolding offered_row merge_row accepted_location_id accepted_device_id
merged_row-HoldsFacts payment none camera same = record {
  id = refl;
  created_at = refl;
  ts_ms = refl;
  updated_at = refl;
  updated_ts_ms = refl;
  amount = refl;
  currency = refl;
  refunded_amount = refl;
  status = refl;
  location_id = refl;
  device_id = refl;
  device_name = refl;
  card_last4 = refl;
  receipt_url = refl;
  note = refl;
  note_revision = refl;
  thumbnail_retired_at = refl;
}
merged_row-HoldsFacts payment (some t) camera same = record {
  id = (str_eq_iff t.id payment.id).0 same;
  created_at = refl;
  ts_ms = refl;
  updated_at = refl;
  updated_ts_ms = refl;
  amount = refl;
  currency = refl;
  refunded_amount = refl;
  status = refl;
  location_id = refl;
  device_id = ground arith;
  device_name = ground (arith, str_eq_refl t.device_id);
  card_last4 = refl;
  receipt_url = refl;
  note = refl;
  note_revision = refl;
  thumbnail_retired_at = refl;
}

-- A valid payment that is not stale is accepted, and the call tells whether its transaction is
-- new. Afterwards the row of its id holds the facts of the payment: refunds never shrink, and the
-- note, a retirement and what the payment leaves empty of its location and device stay as they
-- were. No other transaction changes.
pub upsert_stores :
    (payment : PaymentFacts) (db : Db)
    → validate_payment payment ≡ ok tt
    → is_stale payment (find_tx payment.id db) ≡ false
    → (db' : Db) × (row : TransactionRow) × (upsert_payment payment db
        ≡ ok (is_none (find_tx payment.id db), db'))
      × ((k : String) → find_tx k db' ≡ (if str_eq k payment.id then some row else find_tx k db))
      × HoldsFacts payment (find_tx payment.id db) row
unfolding upsert_payment
upsert_stores payment db valid fresh = (
  apply_payment payment (find_tx payment.id db) db,
  stored_row payment (find_tx payment.id db) (stored_camera payment db) db.settings,
  rw (valid, fresh) refl,
  λ k. find_tx-apply_payment payment db k fresh,
  unfold stored_row in
      silenced-HoldsFacts payment (find_tx payment.id db)
        (is_historical payment (find_tx payment.id db) db.settings) _
        (merged_row-HoldsFacts payment (find_tx payment.id db) (stored_camera payment db)
          (is_none_or-find_tx payment.id db)),
)

pending_new :
    (payment : PaymentFacts) (camera : Option String) (db : Db)
    → upper_is payment.status "COMPLETED" ≡ true
    → is_pending (stored_row payment none camera db.settings)
      ≡ is_some_and (enabled_after db.settings) (λ boundary. leb_ℤ boundary payment.ts_ms)
unfolding stored_row is_historical completion_reference offered_row silence
pending_new payment camera db done =
    ground (arith, done, eq_ignore-upper_is payment.status "COMPLETED" (omega arith))

-- The application of a completed sale that is seen for the first time leaves it waiting for its
-- alarm exactly when the alarm feature was enabled no later than the sale.
pub new_sale_alarm :
    (payment : PaymentFacts) (db : Db)
    → find_tx payment.id db ≡ none
    → upper_is payment.status "COMPLETED" ≡ true
    → is_some_and (find_tx payment.id (apply_payment payment (find_tx payment.id db) db)) is_pending
      ≡ is_some_and (enabled_after db.settings) (λ boundary. leb_ℤ boundary payment.ts_ms)
unfolding is_stale
new_sale_alarm payment db absent done = ground (
  arith,
  absent,
  find_tx-apply_payment payment db payment.id (rw absent refl),
  str_eq_refl payment.id,
  pending_new payment (stored_camera payment db) db done,
)

pending_update :
    (payment : PaymentFacts) (t : TransactionRow) (camera : Option String) (db : Db)
    → upper_is payment.status "COMPLETED" ≡ true
    → upper_is t.status "COMPLETED" ≡ false
    → is_idle t.alarm_state ≡ true
    → is_pending (stored_row payment (some t) camera db.settings)
      ≡ is_some_and (enabled_after db.settings) (λ boundary. leb_ℤ boundary payment.updated_ts_ms)
unfolding stored_row is_historical completion_reference offered_row merge_row silence
pending_update payment t camera db done opened waiting = ground (
  arith,
  done,
  opened,
  waiting,
  eq_ignore-upper_is payment.status "COMPLETED" (omega arith),
  eq_ignore-upper_is t.status "COMPLETED" (omega arith),
)

-- The application of an update that is not stale and completes a stored sale, whose alarm was
-- idle, leaves it waiting for its alarm exactly when the alarm feature was enabled no later than
-- that update.
pub completed_sale_alarm :
    (payment : PaymentFacts) (db : Db) (t : TransactionRow)
    → find_tx payment.id db ≡ some t
    → is_stale payment (some t) ≡ false
    → upper_is payment.status "COMPLETED" ≡ true
    → upper_is t.status "COMPLETED" ≡ false
    → is_idle t.alarm_state ≡ true
    → is_some_and (find_tx payment.id (apply_payment payment (find_tx payment.id db) db)) is_pending
      ≡ is_some_and (enabled_after db.settings) (λ boundary. leb_ℤ boundary payment.updated_ts_ms)
completed_sale_alarm payment db t found fresh done opened waiting = ground (
  arith,
  found,
  find_tx-apply_payment payment db payment.id (rw found fresh),
  str_eq_refl payment.id,
  pending_update payment t (stored_camera payment db) db done opened waiting,
)
