-- ===== src/Store/Steps/Consistency.antt =====
-- The durable queue of thumbnails is exact after any sequence of calls.
use square_uni_fi_protect_in.Common.{
  ℕ, ◌≡◌, refl, Bool, not, ◌||◌, Option, none, some, List, [], ◌∷◌, String, ℤ, Option-cases, arith,
  AppResult, ok, err, ◌>>◌, is_negative, unprocessable, refuse_if, Bool-cases, inl, inr, eqb_ℤ,
  str_eq,
}
use square_uni_fi_protect_in.Table.{update_where, find-update_where, update_where-IsUnique}
use square_uni_fi_protect_in.Schema.{TransactionRow, Db, tx_key, find_tx, is_runnable, after}
use square_uni_fi_protect_in.Store.Ingest.{silence}
use square_uni_fi_protect_in.Store.Ingest.Queue.{upsert_payment-IsConsistent}
use square_uni_fi_protect_in.Store.Retries.Queue.{
  complete_thumbnail_retry-IsConsistent, claim_due-IsConsistent, fail_thumbnail_retry-IsConsistent,
}
use square_uni_fi_protect_in.Store.Retries.Missing.{requeue_missing_thumbnail-IsConsistent}
use square_uni_fi_protect_in.Store.Alarms.{
  release_expired, is_expired_claim, unclaim, pending_alarm_ids, claim, claim_alarm_trigger,
  deliver, mark_alarm_sent, release_alarm_claim, suppress_pending_alarms,
}
use square_uni_fi_protect_in.Store.Guards.{validate_note}
use square_uni_fi_protect_in.Store.Notes.{write_note, edit_note, set_transaction_note}
use square_uni_fi_protect_in.Store.Evidence.{remeasure, update_thumbnail_metadata}
use square_uni_fi_protect_in.Store.Evidence.Switches.{
  clear_square-IsConsistent, clear_protect-IsConsistent,
}
use square_uni_fi_protect_in.Store.Evidence.Mappings.{replace_camera_mappings-IsConsistent}
use square_uni_fi_protect_in.Store.Evidence.Retirement.{retire_thumbnail-IsConsistent}
use square_uni_fi_protect_in.Store.Evidence.Reconciliation.{reconcile-IsConsistent}
use square_uni_fi_protect_in.Store.Queue.{IsConsistent}
use square_uni_fi_protect_in.Store.Steps.{
  Call, upserts, claims_thumbnails, completes, fails, requeues_missing, lists_pending, claims_alarm,
  marks_sent, releases_claim, suppresses_alarms, writes_note, replaces_mappings, retires,
  reconciles, remeasures, clears_protect, clears_square, step, run,
}

-- An update of transactions that leaves their keys and the wish for a thumbnail alone.
update_tx-IsConsistent :
    (p : TransactionRow → Bool) (f : TransactionRow → TransactionRow) (db : Db)
    → ((t : TransactionRow) → (f t).id ≡ t.id)
    → ((t : TransactionRow) → is_runnable (f t) ≡ is_runnable t)
    → IsConsistent db
    → IsConsistent (record db { transactions = update_where p f db.transactions })
update_tx-IsConsistent p f db same kept q = record {
  tx_unique = update_where-IsUnique tx_key p f db.transactions same q.tx_unique;
  retry_unique = q.retry_unique;
  exact = λ k. elim (Option-cases (find_tx k db)) [
    | inl e ↦ ground (arith, e, find-update_where tx_key p f k db.transactions same, q.exact k)
    | inr (t, e) ↦
        ground (arith, e, find-update_where tx_key p f k db.transactions same, kept t, q.exact k)
  ];
}

release_expired-IsConsistent :
    (now : ℕ) (db : Db)
    → IsConsistent db
    → IsConsistent (record db { transactions = release_expired now db.transactions })
unfolding release_expired
release_expired-IsConsistent now db q =
    update_tx-IsConsistent (is_expired_claim now) unclaim db (λ t. unfold unclaim in refl)
      (λ t. unfold unclaim in refl) q

claim_alarm-IsConsistent :
    (id token : String) (now at : ℕ) (db : Db)
    → IsConsistent db
    → IsConsistent (claim_alarm_trigger id token now at db).1
unfolding claim_alarm_trigger
claim_alarm-IsConsistent id token now at db q =
    update_tx-IsConsistent _ (claim token at)
      (record db { transactions = release_expired now db.transactions }) (λ t. unfold claim in refl)
      (λ t. unfold claim in refl) (release_expired-IsConsistent now db q)

write_note-IsConsistent :
    (id note : String) (revision : ℤ) (db : Db)
    → IsConsistent db
    → IsConsistent (write_note id note revision db)
unfolding write_note
write_note-IsConsistent id note revision db q =
    let r =
      update_tx-IsConsistent (λ t. str_eq t.id id)
        (λ t. record t { note = note; note_revision = revision }) db (λ t. refl) (λ t. refl) q in
    record { tx_unique = r.tx_unique; retry_unique = r.retry_unique; exact = r.exact }

edit_note-IsConsistent :
    (id note : String) (expected : ℤ) (db : Db) (found : Option TransactionRow)
    → IsConsistent db
    → IsConsistent (after db (edit_note id note expected db found))
unfolding edit_note
edit_note-IsConsistent id note expected db none q = q
edit_note-IsConsistent id note expected db (some t) q =
    elim (Bool-cases (not (eqb_ℤ t.note_revision expected))) [
      | inl e ↦ rw e q
      | inr e ↦ rw e (elim (Bool-cases (str_eq t.note note)) [
        | inl s ↦ rw s q
        | inr s ↦ rw s (write_note-IsConsistent id note _ db q)
      ])
    ]

set_transaction_note-IsConsistent :
    (id note : String) (expected : ℤ) (db : Db)
    → IsConsistent db
    → IsConsistent (after db (set_transaction_note id note expected db))
unfolding set_transaction_note
set_transaction_note-IsConsistent id note expected db q =
    go (validate_note note) (refuse_if (is_negative expected) unprocessable)
  where
    go :
        (u v : AppResult (Unit {0}))
        → IsConsistent (after db (u >> (v >> edit_note id note expected db (find_tx id db))))
    go (err e) v = q
    go (ok a) (err e) = q
    go (ok a) (ok b) = edit_note-IsConsistent id note expected db (find_tx id db) q

update_metadata-IsConsistent :
    (id path : String) (expected bytes revision : ℤ) (db : Db)
    → IsConsistent db
    → IsConsistent (after db (update_thumbnail_metadata id path expected bytes revision db))
unfolding update_thumbnail_metadata
update_metadata-IsConsistent id path expected bytes revision db q =
    elim (Bool-cases (is_negative bytes || is_negative revision)) [
      | inl e ↦ rw e q
      | inr e ↦ rw e (
          update_tx-IsConsistent _ (remeasure bytes revision) db (λ t. unfold remeasure in refl)
            (λ t. unfold remeasure in refl) q)
    ]

-- Every call of the store, successful or not, keeps the queue of thumbnails exact.
pub step-IsConsistent : (c : Call) (db : Db) → IsConsistent db → IsConsistent (step c db)
unfolding step pending_alarm_ids mark_alarm_sent release_alarm_claim suppress_pending_alarms
step-IsConsistent (upserts payment) db q = upsert_payment-IsConsistent payment db q
step-IsConsistent (claims_thumbnails limit now token) db q =
    claim_due-IsConsistent limit now token db q
step-IsConsistent (completes id token camera ts filename bytes revision) db q =
    complete_thumbnail_retry-IsConsistent id token camera ts filename bytes revision db q
step-IsConsistent (fails id token camera ts error now) db q =
    fail_thumbnail_retry-IsConsistent id token camera ts error now db q
step-IsConsistent (requeues_missing id path) db q =
    requeue_missing_thumbnail-IsConsistent id path db q
step-IsConsistent (lists_pending limit now) db q = release_expired-IsConsistent now db q
step-IsConsistent (claims_alarm id token now at) db q =
    claim_alarm-IsConsistent id token now at db q
step-IsConsistent (marks_sent id token at_ms) db q =
    update_tx-IsConsistent _ (deliver at_ms) db (λ t. unfold deliver in refl)
      (λ t. unfold deliver in refl) q
step-IsConsistent (releases_claim id token) db q =
    update_tx-IsConsistent _ unclaim db (λ t. unfold unclaim in refl) (λ t. unfold unclaim in refl)
      q
step-IsConsistent suppresses_alarms db q =
    update_tx-IsConsistent _ silence db (λ t. unfold silence in refl) (λ t. unfold silence in refl)
      q
step-IsConsistent (writes_note id note revision) db q =
    set_transaction_note-IsConsistent id note revision db q
step-IsConsistent (replaces_mappings mappings) db q =
    replace_camera_mappings-IsConsistent mappings db q
step-IsConsistent (retires id path same_policy now_ms reason) db q =
    retire_thumbnail-IsConsistent id path now_ms reason db same_policy q
step-IsConsistent (reconciles size) db q = reconcile-IsConsistent size db q
step-IsConsistent (remeasures id path expected bytes revision) db q =
    update_metadata-IsConsistent id path expected bytes revision db q
step-IsConsistent clears_protect db q = clear_protect-IsConsistent db q
step-IsConsistent clears_square db q = clear_square-IsConsistent db

-- After any sequence of calls on a consistent database, a transaction has an entry in the queue of
-- thumbnails exactly when it still lacks a thumbnail that could be captured, and the keys of both
-- tables are unique.
pub run-IsConsistent : (calls : List Call) (db : Db) → IsConsistent db → IsConsistent (run calls db)
unfolding run
run-IsConsistent [] db q = q
run-IsConsistent (c ∷ calls) db q = run-IsConsistent calls (step c db) (step-IsConsistent c db q)
