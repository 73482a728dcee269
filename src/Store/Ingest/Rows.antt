-- ===== src/Store/Ingest/Rows.antt =====
-- What an accepted payment does to the table `transactions`, row by row.
use mathlib.Core.Option
use square_uni_fi_protect_in.Common.{
  ◌≡◌, refl, ap, ◌∙◌, Bool, true, false, not, ◌&&◌, Option, none, some, List, String, leb_ℤ, any,
  if◌then◌else◌, str_eq, str_eq_iff, arith, Option-cases, Bool-cases, inl, inr,
}
use square_uni_fi_protect_in.Table.{
  IsUnique, append-IsUnique, update_where-IsUnique, find, find-append, find-update_key,
}
use square_uni_fi_protect_in.Schema.{
  PaymentFacts, TransactionRow, SettingRow, Db, is_sent, tx_key, find_tx,
}
use square_uni_fi_protect_in.Store.Cameras.{camera_for_location}
use square_uni_fi_protect_in.Store.Ingest.{
  is_stale, accepted_location_id, accepted_device_id, mapped_camera, offered_row, merge_row,
  write_row, silence, is_historical, suppress_historical_alarm, apply_payment,
}

-- The row that the statement leaves under the key of `x`.
abbrev pub written : TransactionRow → Option TransactionRow → TransactionRow
written x none = x
written x (some t) = if leb_ℤ t.updated_ts_ms x.updated_ts_ms then merge_row x t else t

pub find-write_row :
    (x : TransactionRow) (k : String) (rows : List TransactionRow)
    → find tx_key k (write_row x rows)
      ≡ (if str_eq k x.id then some (written x (find tx_key x.id rows)) else find tx_key k rows)
unfolding write_row
find-write_row x k rows = elim (Option-cases (find tx_key x.id rows)) [
  | inl e ↦
      rw (e, write_row)
        (find-append tx_key k rows x ∙ ground (arith, e, str_eq_iff k x.id, str_eq_iff x.id k))
  | inr (old, e) ↦
      rw (e, write_row)
        (find-update_key tx_key x.id (λ t. leb_ℤ t.updated_ts_ms x.updated_ts_ms) (merge_row x) k
            rows (λ t. unfold merge_row in refl)
          ∙ merged old (find tx_key k rows) (λ same. rw same e))
]
  where
    merged :
        (old : TransactionRow) (o : Option TransactionRow)
        → (k ≡ x.id → o ≡ some old)
        → (if str_eq k x.id
            then Option.map
                (λ t. if leb_ℤ t.updated_ts_ms x.updated_ts_ms then merge_row x t else t)
                o
            else o)
          ≡ (if str_eq k x.id then some (written x (some old)) else o)
    merged old o found = elim (Bool-cases (str_eq k x.id)) [
      | inl e ↦ rw (e, found ((str_eq_iff k x.id).0 e)) refl
      | inr e ↦ rw e refl
    ]

-- Historical completions are silenced, unless the alarm was sent.
abbrev pub silenced : Bool → TransactionRow → TransactionRow
silenced historical t = if historical && not (is_sent t.alarm_state) then silence t else t

find-suppress :
    (payment : PaymentFacts) (existing : Option TransactionRow) (settings : List SettingRow)
    (k : String) (rows : List TransactionRow)
    → find tx_key k (suppress_historical_alarm payment existing settings rows) ≡ (
        if str_eq k payment.id
        then Option.map (silenced (is_historical payment existing settings)) (find tx_key k rows)
        else find tx_key k rows)
unfolding suppress_historical_alarm
find-suppress payment existing settings k rows =
    elim (Bool-cases (is_historical payment existing settings)) [
      | inl e ↦ rw e (
          find-update_key tx_key payment.id (λ t. not (is_sent t.alarm_state)) silence k rows
            (λ t. unfold silence in refl))
      | inr e ↦ rw e (unchanged (str_eq k payment.id) (find tx_key k rows))
    ]
  where
    unchanged :
        (b : Bool) (o : Option TransactionRow)
        → o ≡ (if b then Option.map (silenced false) o else o)
    unchanged true none = refl
    unchanged true (some t) = refl
    unchanged false o = refl

abbrev pub merged_row : TransactionRow → Option TransactionRow → TransactionRow
merged_row x none = x
merged_row x (some t) = merge_row x t

-- The row of a payment after it was accepted: the offered row, or the stored one merged with it.
unfoldable pub stored_row :
    PaymentFacts → Option TransactionRow → Option String → List SettingRow → TransactionRow
stored_row payment existing camera settings =
    silenced (is_historical payment existing settings)
      (merged_row (offered_row payment existing camera) existing)

-- The camera that an accepted payment is stored with.
unfoldable pub stored_camera : PaymentFacts → Db → Option String
stored_camera payment db =
    let existing = find_tx payment.id db in
    let retired = any (λ id. str_eq id payment.id) db.evidence_retired in
    mapped_camera payment existing retired (
      if retired
      then none
      else camera_for_location db.camera_map (accepted_location_id payment existing)
          (accepted_device_id payment existing))

pub leb_of_fresh :
    (payment : PaymentFacts) (t : TransactionRow) (camera : Option String)
    → is_stale payment (some t) ≡ false
    → leb_ℤ t.updated_ts_ms (offered_row payment (some t) camera).updated_ts_ms ≡ true
unfolding is_stale offered_row
leb_of_fresh payment t camera fresh = ground arith

resolve :
    (b : Bool) (f : TransactionRow → TransactionRow) (w m : TransactionRow)
    (o : Option TransactionRow)
    → w ≡ m
    → (if b then Option.map f (if b then some w else o) else if b then some w else o)
      ≡ (if b then some (f m) else o)
resolve true f w m o e = ap (λ x. some (f x)) e
resolve false f w m o e = refl

written_fresh :
    (payment : PaymentFacts) (existing : Option TransactionRow) (camera : Option String)
    → is_stale payment existing ≡ false
    → written (offered_row payment existing camera) existing
      ≡ merged_row (offered_row payment existing camera) existing
written_fresh payment none camera fresh = refl
written_fresh payment (some t) camera fresh = rw (leb_of_fresh payment t camera fresh) refl

-- An accepted payment stores its row and leaves every other row alone.
pub find_tx-apply_payment :
    (payment : PaymentFacts) (db : Db) (k : String)
    → is_stale payment (find_tx payment.id db) ≡ false
    → find_tx k (apply_payment payment (find_tx payment.id db) db) ≡ (
        if str_eq k payment.id
        then some
            (stored_row payment (find_tx payment.id db) (stored_camera payment db) db.settings)
        else find_tx k db)
unfolding apply_payment stored_camera stored_row offered_row
find_tx-apply_payment payment db k fresh =
    let existing = find_tx payment.id db in
    let camera = stored_camera payment db in
    let offered = offered_row payment existing camera in
    find-suppress payment existing db.settings k (write_row offered db.transactions)
    ∙ rw (find-write_row offered k db.transactions) (
        resolve (str_eq k payment.id) (silenced (is_historical payment existing db.settings)) _ _
          (find_tx k db) (written_fresh payment existing camera fresh))

write_row-IsUnique :
    (x : TransactionRow) (rows : List TransactionRow)
    → IsUnique tx_key rows
    → IsUnique tx_key (write_row x rows)
unfolding write_row
write_row-IsUnique x rows u = elim (Option-cases (find tx_key x.id rows)) [
  | inl e ↦ rw (e, write_row) (append-IsUnique tx_key rows x e u)
  | inr (old, e) ↦
      rw (e, write_row)
        (update_where-IsUnique tx_key
          (λ t. str_eq t.id x.id && leb_ℤ t.updated_ts_ms x.updated_ts_ms) (merge_row x) rows
          (λ t. unfold merge_row in refl) u)
]

suppress-IsUnique :
    (payment : PaymentFacts) (existing : Option TransactionRow) (settings : List SettingRow)
    (rows : List TransactionRow)
    → IsUnique tx_key rows
    → IsUnique tx_key (suppress_historical_alarm payment existing settings rows)
unfolding suppress_historical_alarm
suppress-IsUnique payment existing settings rows u =
    elim (Bool-cases (is_historical payment existing settings)) [
      | inl e ↦ rw e (
          update_where-IsUnique tx_key (λ t. str_eq t.id payment.id && not (is_sent t.alarm_state))
            silence rows (λ t. unfold silence in refl) u)
      | inr e ↦ rw e u
    ]

pub apply_payment-IsUnique :
    (payment : PaymentFacts) (existing : Option TransactionRow) (db : Db)
    → IsUnique tx_key db.transactions
    → IsUnique tx_key (apply_payment payment existing db).transactions
unfolding apply_payment
apply_payment-IsUnique payment existing db u =
    suppress-IsUnique payment existing db.settings _ (write_row-IsUnique _ db.transactions u)
