-- ===== src/Store/Webhooks/Counted.antt =====
-- src/store.rs, `record_webhook_receipt`: which of the two counters a delivery moves.
use square_uni_fi_protect_in.Common.{
  cast_integer, ℕ, ◌+◌, ◌≡◌, refl, sym, ap, ◌∙◌, Bool, true, false, not, Option, none, some, List,
  [], ◌∷◌, ◌++◌, String, ℤ, pos, ◌+ℤ◌, leb_ℤ, if◌then◌else◌, codes, str_eq, str_eq_refl, is_none_or,
  to_string, ok, Bool-cases, inl, inr, arith,
}
use square_uni_fi_protect_in.Common.Decimal.RoundTrip.{
  to_string-bit, cast_integer-to_string, cast_integer-default,
}
use square_uni_fi_protect_in.Table.{find, find-delete_key}
use square_uni_fi_protect_in.Schema.{SettingRow, ReceiptRow, setting_key}
use square_uni_fi_protect_in.Store.Settings.{
  Cipher, setting_value, put_setting, write_plain_setting, delete_settings,
}
use square_uni_fi_protect_in.Store.Settings.Reading.{find-put_setting}
use square_uni_fi_protect_in.Thumbnails.Policy.{parsed}
use square_uni_fi_protect_in.Store.Webhooks.{
  incremented, increment_plain_setting, webhook_receipt_exists, is_bad_receipt, trim_receipts,
  write_lag, count_receipt, record_webhook_receipt,
}

-- What a counter stands at; a missing row is zero.
abbrev pub count_in : Option SettingRow → ℤ
count_in none = pos 0
count_in (some s) = cast_integer (codes s.value)

abbrev pub counter : String → List SettingRow → ℤ
counter key rows = count_in (find setting_key key rows)

zero_count : (n : ℕ) → pos 0 ≡ pos n → 0 ≡ n
zero_count n h = ground (arith, h)

add_one : (n : ℕ) → pos n +ℤ pos 1 ≡ pos (n + 1)
unfolding ◌+ℤ◌
add_one n = ground arith

incremented-count :
    (o : Option SettingRow) (n : ℕ)
    → count_in o ≡ pos n
    → cast_integer (codes (incremented o)) ≡ pos (n + 1)
unfolding incremented
incremented-count none n h =
    ap (λ t. cast_integer (codes t)) (sym to_string-bit.1)
    ∙ cast_integer-to_string 1
    ∙ ap (λ m. pos (m + 1)) (zero_count n h)
incremented-count (some s) n h =
    ap (λ v. cast_integer (codes (to_string (v +ℤ pos 1)))) (cast_integer-default s.value ∙ h)
    ∙ ap (λ v. cast_integer (codes (to_string v))) (add_one n)
    ∙ cast_integer-to_string (n + 1)

counter-put :
    (key k value : String) (encrypted : Bool) (rows : List SettingRow)
    → str_eq k key ≡ false
    → counter k (put_setting key value encrypted rows) ≡ counter k rows
counter-put key k value encrypted rows h =
    ap count_in (find-put_setting key value encrypted rows k ∙ rw h refl)

-- An increment moves its own counter by one, and no other row.
counter-own :
    (key : String) (rows : List SettingRow) (n : ℕ)
    → counter key rows ≡ pos n
    → counter key (increment_plain_setting key rows) ≡ pos (n + 1)
unfolding increment_plain_setting
counter-own key rows n h =
    let text = incremented (find setting_key key rows) in
    let own : find setting_key key (put_setting key text false rows)
        ≡ some (record { key = key; value = text; encrypted = false }) =
      rw (find-put_setting key text false rows key, str_eq_refl key) refl in
    ap count_in own ∙ incremented-count (find setting_key key rows) n h

counter-other :
    (key k : String) (rows : List SettingRow)
    → str_eq k key ≡ false
    → counter k (increment_plain_setting key rows) ≡ counter k rows
unfolding increment_plain_setting
counter-other key k rows h =
    counter-put key k (incremented (find setting_key key rows)) false rows h

-- The bookkeeping of the last payment leaves a counter alone.
counter-lag :
    (k : String) (received_at_ms : ℤ) (created : Option ℤ) (rows : List SettingRow)
    → str_eq k "webhook.last_delivery_lag_ms" ≡ false
    → counter k (write_lag received_at_ms created rows) ≡ counter k rows
unfolding write_lag delete_settings write_plain_setting
counter-lag k received_at_ms none rows h =
    ap count_in (find-delete_key setting_key "webhook.last_delivery_lag_ms" k rows ∙ rw h refl)
counter-lag k received_at_ms (some created) rows h =
    counter-put "webhook.last_delivery_lag_ms" k _ false rows h

booked :
    (k : String) (at : ℤ) (created : Option ℤ) (rows : List SettingRow)
    → str_eq k "webhook.last_delivery_lag_ms" ≡ false
    → str_eq k "webhook.last_payment_ms" ≡ false
    → counter k (write_lag at created (write_plain_setting "webhook.last_payment_ms" at rows))
      ≡ counter k rows
unfolding write_plain_setting
booked k at created rows h g =
    counter-lag k at created (write_plain_setting "webhook.last_payment_ms" at rows) h
    ∙ counter-put "webhook.last_payment_ms" k (to_string at) false rows g

abbrev pub accepted_key : String
accepted_key = "webhook.accepted_payment_count"

abbrev pub duplicate_key : String
duplicate_key = "webhook.duplicate_count"

counted :
    (inserted : Bool) (previous : Option ℤ) (at : ℤ) (created : Option ℤ) (rows : List SettingRow)
    (a d : ℕ)
    → counter accepted_key rows ≡ pos a
    → counter duplicate_key rows ≡ pos d
    → (counter accepted_key (count_receipt inserted previous at created rows)
        ≡ pos (if inserted then a + 1 else a))
      × (counter duplicate_key (count_receipt inserted previous at created rows)
          ≡ pos (if inserted then d else d + 1))
unfolding count_receipt
counted false previous at created rows a d h k = (
  counter-other duplicate_key accepted_key rows (unfold str_eq in refl) ∙ h,
  counter-own duplicate_key rows d k,
)
counted true previous at created rows a d h k =
    let rows' = increment_plain_setting accepted_key rows in
    let own = counter-own accepted_key rows a h in
    let other = counter-other accepted_key duplicate_key rows (unfold str_eq in refl) ∙ k in
    elim (Bool-cases (is_none_or previous (λ p. leb_ℤ p at))) [
      | inl later ↦ rw later (
        booked accepted_key at created rows' (unfold str_eq in refl) (unfold str_eq in refl) ∙ own,
        booked duplicate_key at created rows' (unfold str_eq in refl) (unfold str_eq in refl)
            ∙ other,
      )
      | inr earlier ↦ rw earlier (own, other)
    ]

-- A valid delivery, where the time of the last payment is readable and the counters are natural numbers: it
-- is taken as new exactly when its key has no receipt, and adds one to the counter of accepted payments if
-- it is new, to the counter of duplicates if not, and nothing to the other one.
pub receipt_counted :
    (cipher : Cipher) (key event_type : String) (at : ℤ) (created : Option ℤ)
    (rows : List SettingRow) (receipts : List ReceiptRow) (stored : Option String) (a d : ℕ)
    → is_bad_receipt key event_type at created ≡ false
    → setting_value cipher rows "webhook.last_payment_ms" ≡ ok stored
    → counter accepted_key rows ≡ pos a
    → counter duplicate_key rows ≡ pos d
    → (rows' : List SettingRow) × (receipts' : List ReceiptRow) × (record_webhook_receipt cipher key
          event_type at created rows receipts
        ≡ ok (not (webhook_receipt_exists key receipts), rows', receipts'))
      × (counter accepted_key rows'
          ≡ pos (if webhook_receipt_exists key receipts then a else a + 1))
      × (counter duplicate_key rows'
          ≡ pos (if webhook_receipt_exists key receipts then d + 1 else d))
unfolding record_webhook_receipt
receipt_counted cipher key event_type at created rows receipts stored a d good read h k =
    let inserted = not (webhook_receipt_exists key receipts) in
    let c = counted inserted (parsed stored) at created rows a d h k in
    let receipt : ReceiptRow = record {
      event_key = key;
      event_type = event_type;
      received_at_ms = at;
      event_created_at_ms = created;
    } in
    (
      count_receipt inserted (parsed stored) at created rows,
      trim_receipts (if inserted then receipts ++ receipt ∷ [] else receipts),
      rw (record_webhook_receipt, good, read) refl,
      elim (Bool-cases (webhook_receipt_exists key receipts)) [
        | inl e ↦ ground (arith, c, e)
        | inr e ↦ ground (arith, c, e)
      ],
      elim (Bool-cases (webhook_receipt_exists key receipts)) [
        | inl e ↦ ground (arith, c, e)
        | inr e ↦ ground (arith, c, e)
      ],
    )
