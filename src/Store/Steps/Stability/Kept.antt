-- ===== src/Store/Steps/Stability/Kept.antt =====
-- A stable test on the row of a transaction is kept by every call but the switch of the account.
use square_uni_fi_protect_in.Common.{
  ℕ, ◌≡◌, refl, Bool, true, false, not, ◌&&◌, ◌||◌, ◌==◌, Option, none, some, List, String, ℤ,
  if◌then◌else◌, arith, AppResult, ok, err, ◌>>◌, Bool-cases, Option-cases, inl, inr, str_eq,
  str_eq_iff, is_some_and, is_none, opt_is, any,
}
use square_uni_fi_protect_in.Table.{find, update_where, find-update_where, count_where, first_where}
use square_uni_fi_protect_in.Schema.{
  PaymentFacts, TransactionRow, SettingRow, Db, tx_key, find_tx, is_sent, after,
}
use square_uni_fi_protect_in.Store.Ingest.{
  is_stale, offered_row, merge_row, is_historical, apply_payment, upsert_payment,
}
use square_uni_fi_protect_in.Store.Ingest.Rows.{
  stored_row, stored_camera, find_tx-apply_payment, leb_of_fresh,
}
use square_uni_fi_protect_in.Store.Guards.{validate_payment, validate_camera_id, is_local_filename}
use square_uni_fi_protect_in.Store.Retries.{
  attach, detach, is_open, is_leased_to, requeue_changed, complete_claimed,
  complete_thumbnail_retry, fail_thumbnail_retry, retarget, current_camera,
  requeue_missing_thumbnail,
}
use square_uni_fi_protect_in.Store.Steps.Stability.{IsStable}

module _ (P : TransactionRow → Bool) (stable : IsStable P) (id : String) where
  -- The transaction is there and passes the test.
  abbrev pub Holds : Db → Type 0
  Holds db = is_some_and (find_tx id db) P ≡ true

  -- An update that keeps the test on the rows that it writes.
  pub kept :
      (p : TransactionRow → Bool) (f : TransactionRow → TransactionRow) (rows : List TransactionRow)
      → ((t : TransactionRow) → (f t).id ≡ t.id)
      → ((t : TransactionRow) → p t ≡ true → P t ≡ true → P (f t) ≡ true)
      → is_some_and (find tx_key id rows) P ≡ true
      → is_some_and (find tx_key id (update_where p f rows)) P ≡ true
  kept p f rows same keep h = elim (Option-cases (find tx_key id rows)) [
    | inl e ↦ ground (arith, e, h)
    | inr (t, e) ↦ ground (arith, e, h, find-update_where tx_key p f id rows same, keep t)
  ]

  stored_row_kept :
      (payment : PaymentFacts) (t : TransactionRow) (camera : Option String)
      (settings : List SettingRow)
      → is_stale payment (some t) ≡ false
      → P t ≡ true
      → P (stored_row payment (some t) camera settings) ≡ true
  unfolding stored_row
  stored_row_kept payment t camera settings fresh h =
      let x = offered_row payment (some t) camera in
      let merged = stable.on_merge x t (leb_of_fresh payment t camera fresh) h in
      elim (Bool-cases
        (is_historical payment (some t) settings && not (is_sent (merge_row x t).alarm_state))) [
          | inl e ↦ rw e (stable.on_silence (merge_row x t) merged)
          | inr e ↦ rw e merged
        ]

  apply_payment_kept :
      (payment : PaymentFacts) (db : Db)
      → is_stale payment (find_tx payment.id db) ≡ false
      → Holds db
      → Holds (apply_payment payment (find_tx payment.id db) db)
  apply_payment_kept payment db fresh h =
      rw (find_tx-apply_payment payment db id fresh) (elim (Bool-cases (str_eq id payment.id)) [
        | inl same ↦
            rw same
              (found (find_tx payment.id db) fresh (rw ((str_eq_iff id payment.id).0 same) at h))
        | inr other ↦ rw other h
      ])
    where
      found :
          (o : Option TransactionRow)
          → is_stale payment o ≡ false
          → is_some_and o P ≡ true
          → P (stored_row payment o (stored_camera payment db) db.settings) ≡ true
      found none f g = cc
      found (some t) f g = stored_row_kept payment t (stored_camera payment db) db.settings f g

  pub upsert_payment_kept :
      (payment : PaymentFacts) (db : Db) → Holds db → Holds (after db (upsert_payment payment db))
  unfolding upsert_payment
  upsert_payment_kept payment db h =
      go (validate_payment payment) (is_stale payment (find_tx payment.id db)) refl
    where
      go :
          (v : AppResult (Unit {0})) (stale : Bool)
          → is_stale payment (find_tx payment.id db) ≡ stale
          → Holds (
              after db (
                v
                >> (if stale
                    then ok (false, db)
                    else ok (
                      is_none (find_tx payment.id db),
                      apply_payment payment (find_tx payment.id db) db,
                    ))))
      go (err e) stale f = h
      go (ok u) true f = h
      go (ok u) false f = apply_payment_kept payment db f h

  requeue_changed_kept :
      (k token : String) (db : Db) → Holds db → Holds (requeue_changed k token db)
  unfolding requeue_changed
  requeue_changed_kept k token db h = ground arith

  complete_claimed_kept :
      (k token camera : String) (ts : ℤ) (filename : String) (bytes revision : ℤ) (db : Db)
      → Holds db
      → Holds (complete_claimed k token camera ts filename bytes revision db).1
  unfolding complete_claimed
  complete_claimed_kept k token camera ts filename bytes revision db h =
      let p = λ (t : TransactionRow). str_eq t.id k && is_open camera ts t in
      let rows =
        kept p (attach filename bytes revision) db.transactions (λ t. unfold attach in refl)
          (λ t _. stable.on_attach filename bytes revision t) h in
      elim (Bool-cases (count_where p db.transactions == 1)) [
        | inl e ↦ rw e rows
        | inr e ↦ rw e (requeue_changed_kept k token _ rows)
      ]

  pub complete_kept :
      (k token camera : String) (ts : ℤ) (filename : String) (bytes revision : ℤ) (db : Db)
      → Holds db
      → Holds (after db (complete_thumbnail_retry k token camera ts filename bytes revision db))
  unfolding complete_thumbnail_retry
  complete_kept k token camera ts filename bytes revision db h =
      go _ (validate_camera_id camera) (is_none (first_where (is_leased_to k token) db.retries))
    where
      go :
          (u v : AppResult (Unit {0})) (unclaimed : Bool)
          → Holds (
              after db (
                u
                >> (v
                    >> (if unclaimed
                        then ok (false, db)
                        else ok (complete_claimed k token camera ts filename bytes revision db)))))
      go (err e) v unclaimed = h
      go (ok a) (err e) unclaimed = h
      go (ok a) (ok b) true = h
      go (ok a) (ok b) false = complete_claimed_kept k token camera ts filename bytes revision db h

  pub fail_kept :
      (k token camera : String) (ts : ℤ) (error : String) (now : ℕ) (db : Db)
      → Holds db
      → Holds (fail_thumbnail_retry k token camera ts error now db).1
  unfolding fail_thumbnail_retry
  fail_kept k token camera ts error now db h = ground (arith, requeue_changed_kept k token db h)

  pub retarget_kept :
      (k : String) (camera : Option String) (db : Db) → Holds db → Holds (retarget k camera db)
  unfolding retarget
  retarget_kept k camera db h =
      kept _ (λ t. record t { camera_id = camera }) db.transactions (λ t. refl)
        (λ t _. stable.on_camera camera t) h

  pub requeue_missing_kept :
      (k path : String) (db : Db) → Holds db → Holds (requeue_missing_thumbnail k path db).1
  unfolding requeue_missing_thumbnail
  requeue_missing_kept k path db h =
      go (not (is_local_filename path) || any (λ name. str_eq name path) db.files)
        (count_where p db.transactions == 1)
    where
      p : TransactionRow → Bool
      p t = str_eq t.id k && (opt_is t.thumbnail_path path && is_none t.thumbnail_retired_at)

      db' : Db
      db' = record db { transactions = update_where p detach db.transactions }

      rows : Holds db'
      rows =
          kept p detach db.transactions (λ t. unfold detach in refl) (λ t _. stable.on_detach t) h

      go :
          (present changed : Bool)
          → let r : Bool × Db =
              if present
              then (false, db)
              else if not changed
              then (false, db')
              else (true, retarget k (current_camera k db') db') in
            Holds r.1
      go true changed = h
      go false false = rows
      go false true = retarget_kept k (current_camera k db') db' rows
