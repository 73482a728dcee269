-- ===== src/Store/Webhooks.antt =====
-- src/store.rs: the receipts of Square's webhooks and their counters. SQL's CAST of a text to INTEGER reads
-- the longest prefix that is a number.
pub mod Counted
use square_uni_fi_protect_in.Common.{
  cast_integer, is_digit, ℕ, ◌+◌, ◌*◌, ◌-◌, Bool, false, not, ◌&&◌, ◌||◌, Option, none, some, List,
  [], ◌∷◌, ◌++◌, String, ℤ, pos, ◌+ℤ◌, ◌-ℤ◌, leb_ℤ, max_ℤ, is_negative, leb, ◌==◌, if◌then◌else◌,
  all, any, drop, codes, str_eq, str_len, str_is_empty, is_some_and, is_none_or, to_string,
  unwrap_or, AppResult, ok, unprocessable, refuse_if, ◌>>=◌, ◌>>◌,
}
use square_uni_fi_protect_in.Table.{find, delete_where}
use square_uni_fi_protect_in.Schema.{SettingRow, ReceiptRow, setting_key}
use square_uni_fi_protect_in.Store.Ordering.{order_by}
use square_uni_fi_protect_in.Store.Settings.{
  Cipher, setting_value, put_setting, write_plain_setting, delete_settings,
}
use square_uni_fi_protect_in.Thumbnails.Policy.{parsed}

-- CAST(COALESCE(NULLIF(value, ''), '0') AS INTEGER)+1, and '1' for a new row. Counts stay below the
-- largest i64, where SQLite would go on in floating point.
unfoldable pub incremented : Option SettingRow → String
incremented none = "1"
incremented (some s) =
    to_string (cast_integer (codes (if str_is_empty s.value then "0" else s.value)) +ℤ pos 1)

unfoldable pub increment_plain_setting : String → List SettingRow → List SettingRow
increment_plain_setting key rows =
    put_setting key (incremented (find setting_key key rows)) false rows

unfoldable pub maximum : ℤ → Option SettingRow → String
maximum value none = to_string value
maximum value (some s) =
    to_string (max_ℤ (cast_integer (codes s.value)) (cast_integer (codes (to_string value))))

unfoldable pub max_plain_setting : String → ℤ → List SettingRow → List SettingRow
max_plain_setting key value rows =
    put_setting key (maximum value (find setting_key key rows)) false rows

unfoldable pub record_webhook_delivery : ℤ → List SettingRow → AppResult (List SettingRow)
record_webhook_delivery received_at_ms rows = do
  refuse_if (is_negative received_at_ms) unprocessable
  ok (
      max_plain_setting "webhook.last_event_ms" received_at_ms
        (increment_plain_setting "webhook.delivery_count" rows))

unfoldable pub webhook_receipt_exists : String → List ReceiptRow → Bool
webhook_receipt_exists key receipts = any (λ r. str_eq r.event_key key) receipts

-- `is_ascii_hexdigit` and not `is_ascii_uppercase`.
abbrev pub is_lower_hex : ℕ → Bool
is_lower_hex c = is_digit c || (leb b'a' c && leb c b'f')

unfoldable pub is_bad_receipt : String → String → ℤ → Option ℤ → Bool
is_bad_receipt key event_type received_at_ms created =
    not (str_len key == 64)
    || (not (all is_lower_hex (codes key))
        || (not (str_eq event_type "payment.created" || str_eq event_type "payment.updated")
            || (is_negative received_at_ms || is_some_and created is_negative)))

-- Receipts behind the 4096 newest are deleted.
unfoldable pub trim_receipts : List ReceiptRow → List ReceiptRow
trim_receipts receipts =
    let stale = drop 4096 (order_by (λ a b. leb_ℤ b.received_at_ms a.received_at_ms) receipts) in
    delete_where (λ r. any (λ x. str_eq x.event_key r.event_key) stale) receipts

unfoldable pub write_lag : ℤ → Option ℤ → List SettingRow → List SettingRow
write_lag received_at_ms none rows = delete_settings ("webhook.last_delivery_lag_ms" ∷ []) rows
write_lag received_at_ms (some created) rows =
    write_plain_setting "webhook.last_delivery_lag_ms" (received_at_ms -ℤ created) rows

-- The settings after a delivery that was new, or was a duplicate.
unfoldable pub count_receipt : Bool → Option ℤ → ℤ → Option ℤ → List SettingRow → List SettingRow
count_receipt inserted previous received_at_ms created rows =
    if inserted
    then (let counted = increment_plain_setting "webhook.accepted_payment_count" rows in
        if is_none_or previous (λ p. leb_ℤ p received_at_ms)
        then write_lag received_at_ms created
            (write_plain_setting "webhook.last_payment_ms" received_at_ms counted)
        else counted)
    else increment_plain_setting "webhook.duplicate_count" rows

unfoldable pub record_webhook_receipt :
    Cipher
    → String
    → String
    → ℤ
    → Option ℤ
    → List SettingRow
    → List ReceiptRow
    → AppResult (Bool × List SettingRow × List ReceiptRow)
record_webhook_receipt cipher key event_type received_at_ms created rows receipts = do
  refuse_if (is_bad_receipt key event_type received_at_ms created) unprocessable
  stored ← setting_value cipher rows "webhook.last_payment_ms"
  let inserted = not (webhook_receipt_exists key receipts)
  let receipt : ReceiptRow = record {
    event_key = key;
    event_type = event_type;
    received_at_ms = received_at_ms;
    event_created_at_ms = created;
  }
  ok (
    inserted,
    count_receipt inserted (parsed stored) received_at_ms created rows,
    trim_receipts (if inserted then receipts ++ receipt ∷ [] else receipts),
  )

pub record WebhookMetrics : Type 0 where
  pub configured : Bool
  pub last_event_ms : Option ℤ
  pub delivery_count : ℤ
  pub last_payment_ms : Option ℤ
  pub last_delivery_lag_ms : Option ℤ
  pub accepted_payment_count : ℤ
  pub duplicate_count : ℤ

-- The address is read only if the key is set.
unfoldable pub webhook_configured : Cipher → List SettingRow → AppResult Bool
webhook_configured cipher rows = do
  key ← setting_value cipher rows "square.webhook_signature_key"
  (if str_is_empty (unwrap_or key "")
      then ok false
      else setting_value cipher rows "square.webhook_url" >>= λ url.
          ok (not (str_is_empty (unwrap_or url ""))))

unfoldable pub webhook_metrics : Cipher → List SettingRow → AppResult WebhookMetrics
webhook_metrics cipher rows = do
  configured ← webhook_configured cipher rows
  last_event ← setting_value cipher rows "webhook.last_event_ms"
  deliveries ← setting_value cipher rows "webhook.delivery_count"
  last_payment ← setting_value cipher rows "webhook.last_payment_ms"
  lag ← setting_value cipher rows "webhook.last_delivery_lag_ms"
  accepted ← setting_value cipher rows "webhook.accepted_payment_count"
  duplicates ← setting_value cipher rows "webhook.duplicate_count"
  ok (record {
    configured = configured;
    last_event_ms = parsed last_event;
    delivery_count = unwrap_or (parsed deliveries) (pos 0);
    last_payment_ms = parsed last_payment;
    last_delivery_lag_ms = parsed lag;
    accepted_payment_count = unwrap_or (parsed accepted) (pos 0);
    duplicate_count = unwrap_or (parsed duplicates) (pos 0);
  })
