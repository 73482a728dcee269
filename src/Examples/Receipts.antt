-- ===== src/Examples/Receipts.antt =====
-- A first delivery of a payment event.
use square_uni_fi_protect_in.Common.{
  is_digit, ◌≡◌, refl, List, [], String, pos, none, some, ok, str_len, str_eq, not,
}
use square_uni_fi_protect_in.Table.{find}
use square_uni_fi_protect_in.Schema.{SettingRow, ReceiptRow}
use square_uni_fi_protect_in.Store.Settings.{setting_value}
use square_uni_fi_protect_in.Store.Webhooks.{
  is_bad_receipt, record_webhook_receipt, webhook_receipt_exists,
}
use square_uni_fi_protect_in.Store.Webhooks.Counted.{
  receipt_counted, counter, accepted_key, duplicate_key,
}
use square_uni_fi_protect_in.Examples.Policies.{plain}

abbrev event : String
event = "0123456789abcdef0123456789abcdef0123456789abcdef0123456789abcdef"

receipt_counted_example :
    (rows : List SettingRow) × (receipts : List ReceiptRow) × (record_webhook_receipt plain event
        "payment.created"
        (pos 5000)
        (some (pos 4000))
        []
        []
      ≡ ok (not (webhook_receipt_exists event []), rows, receipts))
    × (counter accepted_key rows ≡ pos 1)
    × (counter duplicate_key rows ≡ pos 0)
unfolding is_bad_receipt setting_value find webhook_receipt_exists str_len str_eq is_digit
receipt_counted_example =
    receipt_counted plain event "payment.created" (pos 5000) (some (pos 4000)) [] [] none 0 0 refl
      refl refl refl
