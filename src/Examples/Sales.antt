-- ===== src/Examples/Sales.antt =====
-- The theorems on ingestion and on whole histories, applied to the sale of `Data`.
use square_uni_fi_protect_in.Common.{
  ◌≡◌, refl, List, [], ◌∷◌, some, true, false, String, pos, is_some_and, is_none, ok, if◌then◌else◌,
  str_eq, leb_ℤ, upper_is, str_is_empty, str_len,
}
use square_uni_fi_protect_in.Table.{find}
use square_uni_fi_protect_in.Store.Guards.{validate_payment, has_forbidden_controls}
use square_uni_fi_protect_in.Schema.{Db, TransactionRow, find_tx}
use square_uni_fi_protect_in.Store.Queue.{IsConsistent}
use square_uni_fi_protect_in.Store.Ingest.{apply_payment, upsert_payment, enabled_after, is_stale}
use square_uni_fi_protect_in.Store.Ingest.Sales.{
  HoldsFacts, upsert_stores, new_sale_alarm, completed_sale_alarm,
}
use square_uni_fi_protect_in.Store.Cameras.{camera_for_location}
use square_uni_fi_protect_in.Store.Cameras.Precedence.{camera_precedence, preferred}
use square_uni_fi_protect_in.Store.Steps
use square_uni_fi_protect_in.Store.Steps.Consistency.{run-IsConsistent}
use square_uni_fi_protect_in.Store.Steps.Facts.{run_monotone, is_as_new_as, has_refunded}
use square_uni_fi_protect_in.Store.Alarms.{is_pending}
use square_uni_fi_protect_in.Examples.Data.{sale, till, empty, busy, empty-IsConsistent, sale_row}

abbrev history : List Steps.Call
history =
    Steps.upserts sale
    ∷ Steps.claims_thumbnails (pos 10) 5 "worker"
    ∷ Steps.completes "pay_1" "worker" "cam1aaaaaaaaaaaaaaaaaaaaa" (pos 2000) "a.jpg" (pos 9)
        (pos 1)
    ∷ []

run-IsConsistent_example : IsConsistent (Steps.run history empty)
run-IsConsistent_example = run-IsConsistent history empty empty-IsConsistent

sale_is_valid : validate_payment sale ≡ ok tt
unfolding validate_payment has_forbidden_controls str_eq str_is_empty str_len
sale_is_valid = refl

new_sale_alarm_example :
    is_some_and (find_tx "pay_1" (apply_payment sale (find_tx "pay_1" empty) empty)) is_pending
    ≡ is_some_and (enabled_after empty.settings) (λ boundary. leb_ℤ boundary sale.ts_ms)
unfolding find upper_is str_eq
new_sale_alarm_example = new_sale_alarm sale empty refl refl

-- The sale of `Data`, stored while it was still open.
abbrev opened : Db
opened = record busy { transactions = record sale_row { status = "APPROVED" } ∷ [] }

sale_is_fresh : is_stale sale (find_tx sale.id opened) ≡ false
unfolding is_stale find str_eq
sale_is_fresh = refl

upsert_stores_example :
    (db' : Db) × (row : TransactionRow) × (upsert_payment sale opened
      ≡ ok (is_none (find_tx sale.id opened), db'))
    × ((k : String) → find_tx k db' ≡ (if str_eq k sale.id then some row else find_tx k opened))
    × HoldsFacts sale (find_tx sale.id opened) row
upsert_stores_example = upsert_stores sale opened sale_is_valid sale_is_fresh

completed_sale_alarm_example :
    is_some_and (find_tx "pay_1" (apply_payment sale (find_tx "pay_1" opened) opened)) is_pending
    ≡ is_some_and (enabled_after opened.settings) (λ boundary. leb_ℤ boundary sale.updated_ts_ms)
unfolding find upper_is is_stale str_eq
completed_sale_alarm_example =
    completed_sale_alarm sale opened (record sale_row { status = "APPROVED" }) refl refl refl refl
      refl

run_monotone_example :
    (is_some_and (find_tx "pay_1" (Steps.run history busy)) (is_as_new_as (pos 2000)) ≡ true)
    × (is_some_and (find_tx "pay_1" (Steps.run history busy)) (has_refunded (pos 0)) ≡ true)
unfolding find str_eq
run_monotone_example = run_monotone history busy "pay_1" sale_row (refl, (refl, (refl, tt))) refl

camera_precedence_example :
    camera_for_location (till ∷ []) "L1" "D9" ≡ preferred "L1" "D9" (till ∷ [])
camera_precedence_example = camera_precedence "L1" "D9" (till ∷ [])
