-- ===== src/Store/Ingest/Queue.antt =====
-- Ingestion keeps the durable queue of thumbnails exact.
use square_uni_fi_protect_in.Common.{
  ◌≡◌, refl, Bool, true, false, not, ◌&&◌, Option, none, some, List, String, if◌then◌else◌, str_eq,
  arith, Bool-cases, inl, inr, AppResult, ok, err, ◌>>◌, is_some, is_none,
}
use square_uni_fi_protect_in.Table.{find, IsUnique}
use square_uni_fi_protect_in.Schema.{
  PaymentFacts, TransactionRow, RetryRow, SettingRow, Db, retry_key, find_tx, find_retry,
  is_runnable, after,
}
use square_uni_fi_protect_in.Store.RetryRows.{
  find-requeue, find-enqueue_if_absent, find-dequeue, requeue-IsUnique, enqueue_if_absent-IsUnique,
  dequeue-IsUnique,
}
use square_uni_fi_protect_in.Store.Ingest.{
  is_stale, retained_thumbnail, storage_retired, evidence_changed, requeue_capture, apply_payment,
  upsert_payment, offered_row, merge_row, silence,
}
use square_uni_fi_protect_in.Store.Ingest.Rows.{
  stored_row, stored_camera, find_tx-apply_payment, apply_payment-IsUnique,
}
use square_uni_fi_protect_in.Store.Queue.{IsConsistent}
use square_uni_fi_protect_in.Store.Guards.{validate_payment}

abbrev wants_capture : PaymentFacts → Option TransactionRow → Option String → Bool
wants_capture payment existing camera =
    is_some camera
    && (is_none (retained_thumbnail payment existing camera)
        && not (storage_retired payment existing))

find-requeue_capture :
    (payment : PaymentFacts) (existing : Option TransactionRow) (camera : Option String)
    (k : String) (rows : List RetryRow)
    → is_some (find retry_key k (requeue_capture payment existing camera rows)) ≡ (
        if str_eq k payment.id
        then wants_capture payment existing camera
        else is_some (find retry_key k rows))
unfolding requeue_capture
find-requeue_capture payment existing camera k rows = ground (
  arith,
  find-requeue payment.id k rows,
  find-enqueue_if_absent payment.id k rows,
  find-dequeue payment.id k rows,
)

requeue_capture-IsUnique :
    (payment : PaymentFacts) (existing : Option TransactionRow) (camera : Option String)
    (rows : List RetryRow)
    → IsUnique retry_key rows
    → IsUnique retry_key (requeue_capture payment existing camera rows)
unfolding requeue_capture
requeue_capture-IsUnique payment existing camera rows u =
    elim (Bool-cases (wants_capture payment existing camera)) [
      | inl w ↦ rw w (elim (Bool-cases (evidence_changed payment existing camera)) [
        | inl e ↦ rw e (requeue-IsUnique payment.id rows u)
        | inr e ↦ rw e (enqueue_if_absent-IsUnique payment.id rows u)
      ])
      | inr w ↦ rw w (dequeue-IsUnique payment.id rows u)
    ]

is_runnable-stored_row :
    (payment : PaymentFacts) (existing : Option TransactionRow) (camera : Option String)
    (settings : List SettingRow)
    → is_runnable (stored_row payment existing camera settings)
      ≡ wants_capture payment existing camera
unfolding stored_row offered_row merge_row silence
is_runnable-stored_row payment none camera settings = ground arith
is_runnable-stored_row payment (some t) camera settings = ground arith

find_retry-apply_payment :
    (payment : PaymentFacts) (db : Db) (k : String)
    → is_some (find_retry k (apply_payment payment (find_tx payment.id db) db)) ≡ (
        if str_eq k payment.id
        then wants_capture payment (find_tx payment.id db) (stored_camera payment db)
        else is_some (find_retry k db))
unfolding apply_payment stored_camera
find_retry-apply_payment payment db k =
    find-requeue_capture payment (find_tx payment.id db) (stored_camera payment db) k db.retries

pub apply_payment-IsConsistent :
    (payment : PaymentFacts) (db : Db)
    → is_stale payment (find_tx payment.id db) ≡ false
    → IsConsistent db
    → IsConsistent (apply_payment payment (find_tx payment.id db) db)
apply_payment-IsConsistent payment db fresh q = record {
  tx_unique = apply_payment-IsUnique payment (find_tx payment.id db) db q.tx_unique;
  retry_unique =
      unfold apply_payment stored_camera in
      requeue_capture-IsUnique payment (find_tx payment.id db) (stored_camera payment db) db.retries
        q.retry_unique;
  exact = λ k. ground (
    arith,
    find_retry-apply_payment payment db k,
    find_tx-apply_payment payment db k fresh,
    is_runnable-stored_row payment (find_tx payment.id db) (stored_camera payment db) db.settings,
    q.exact k,
  );
}

-- Ingestion of any payment into a consistent database, accepted, stale or malformed, leaves it
-- consistent: a transaction has an entry in the queue if and only if it lacks a thumbnail that
-- could still be captured.
pub upsert_payment-IsConsistent :
    (payment : PaymentFacts) (db : Db)
    → IsConsistent db
    → IsConsistent (after db (upsert_payment payment db))
unfolding upsert_payment
upsert_payment-IsConsistent payment db q =
    go (validate_payment payment) (is_stale payment (find_tx payment.id db)) refl
  where
    go :
        (v : AppResult (Unit {0})) (stale : Bool)
        → is_stale payment (find_tx payment.id db) ≡ stale
        → IsConsistent (
            after db (
              v
              >> (if stale
                  then ok (false, db)
                  else ok (
                    is_none (find_tx payment.id db),
                    apply_payment payment (find_tx payment.id db) db,
                  ))))
    go (err e) stale h = q
    go (ok u) true h = q
    go (ok u) false h = apply_payment-IsConsistent payment db h q
