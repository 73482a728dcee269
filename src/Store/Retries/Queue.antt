-- ===== src/Store/Retries/Queue.antt =====
-- The worker's operations keep the durable queue of thumbnails exact.
use square_uni_fi_protect_in.Common.{
  ℕ, ◌≡◌, refl, Bool, true, false, ◌&&◌, ◌==◌, Option, none, some, List, String, ℤ, if◌then◌else◌,
  str_eq, str_eq_iff, opt_is, arith, Bool-cases, inl, inr, is_some, is_none, is_some_and, AppResult,
  ok, err, ◌>>◌,
}
use mathlib.Core.Option
use square_uni_fi_protect_in.Table.{
  find, IsUnique, first_where, count_where, update_where, find-update_key, find-update_where,
  find-update_row, find-delete_key_where, count-key, first_where-key, update_where-IsUnique,
  delete_where-IsUnique,
}
use square_uni_fi_protect_in.Schema.{
  TransactionRow, RetryRow, Db, tx_key, retry_key, find_tx, find_retry, is_runnable, after,
}
use square_uni_fi_protect_in.Store.RetryRows.{
  reset_retry, requeue, dequeue, find-requeue, find-dequeue, requeue-IsUnique, dequeue-IsUnique,
}
use square_uni_fi_protect_in.Store.Guards.{validate_camera_id}
use square_uni_fi_protect_in.Store.Queue.{IsConsistent}
use square_uni_fi_protect_in.Store.Retries.{
  is_leased_to, requeue_changed, is_open, attach, complete_claimed, complete_thumbnail_retry,
  retarget, postpone, fail_thumbnail_retry, lease, claim_due_thumbnail_retries,
}

-- An update of the queue's rows keeps the invariant.
pub update_retries-IsConsistent :
    (p : RetryRow → Bool) (f : RetryRow → RetryRow) (db : Db)
    → ((r : RetryRow) → (f r).transaction_id ≡ r.transaction_id)
    → IsConsistent db
    → IsConsistent (record db { retries = update_where p f db.retries })
update_retries-IsConsistent p f db h q = record {
  tx_unique = q.tx_unique;
  retry_unique = update_where-IsUnique retry_key p f db.retries h q.retry_unique;
  exact = λ k. ground (arith, find-update_where retry_key p f k db.retries h, q.exact k);
}

pub requeue_changed-IsConsistent :
    (id token : String) (db : Db) → IsConsistent db → IsConsistent (requeue_changed id token db)
unfolding requeue_changed
requeue_changed-IsConsistent id token db q =
    elim (Bool-cases (is_some_and (find_tx id db) is_runnable)) [
      | inl e ↦ rw e (
          update_retries-IsConsistent (is_leased_to id token) reset_retry db
            (λ r. unfold reset_retry in refl) q)
      | inr e ↦ rw e (record {
        tx_unique = q.tx_unique;
        retry_unique =
            delete_where-IsUnique retry_key (is_leased_to id token) db.retries q.retry_unique;
        exact = λ k. ground (
          arith,
          e,
          find-delete_key_where retry_key id (λ r. opt_is r.lease_token token) k db.retries
              q.retry_unique,
          str_eq_iff k id,
          q.exact k,
        );
      })
    ]

pub update_tx-IsUnique :
    (p : TransactionRow → Bool) (f : TransactionRow → TransactionRow) (db : Db)
    → ((t : TransactionRow) → (f t).id ≡ t.id)
    → IsConsistent db
    → IsUnique tx_key (update_where p f db.transactions)
update_tx-IsUnique p f db h q = update_where-IsUnique tx_key p f db.transactions h q.tx_unique

module _ (id token camera : String) (ts : ℤ) (filename : String) (bytes revision : ℤ) where
  -- The row of the transaction after the guarded update: it has the image just if it was still open.
  find_tx-attach :
      (k : String) (rows : List TransactionRow)
      → find tx_key k (
          update_where
            (λ t. str_eq t.id id && is_open camera ts t)
            (attach filename bytes revision)
            rows)
        ≡ (if str_eq k id
            then Option.map
                (λ t. if is_open camera ts t then attach filename bytes revision t else t)
                (find tx_key k rows)
            else find tx_key k rows)
  find_tx-attach k rows =
      find-update_key tx_key id (is_open camera ts) (attach filename bytes revision) k rows
        (λ t. unfold attach in refl)

  complete_claimed-IsConsistent :
      (db : Db)
      → is_none (first_where (is_leased_to id token) db.retries) ≡ false
      → IsConsistent db
      → IsConsistent (complete_claimed id token camera ts filename bytes revision db).1
  unfolding complete_claimed
  complete_claimed-IsConsistent db held q =
      elim (Bool-cases (
        count_where (λ (t : TransactionRow). str_eq t.id id && is_open camera ts t) db.transactions
        == 1)) [
          | inl e ↦ rw e (record {
            tx_unique =
                update_tx-IsUnique _ (attach filename bytes revision) db
                  (λ t. unfold attach in refl) q;
            retry_unique =
                delete_where-IsUnique retry_key (is_leased_to id token) db.retries q.retry_unique;
            exact = λ k.
                unfold attach in
                ground (
                  arith,
                  e,
                  held,
                  first_where-key retry_key id (λ r. opt_is r.lease_token token) db.retries
                      q.retry_unique,
                  count-key tx_key id (is_open camera ts) db.transactions q.tx_unique,
                  find-delete_key_where retry_key id (λ r. opt_is r.lease_token token) k db.retries
                      q.retry_unique,
                  find_tx-attach k db.transactions,
                  str_eq_iff k id,
                  q.exact k,
                );
          })
          | inr e ↦ rw e (
              requeue_changed-IsConsistent id token _ (record {
                tx_unique =
                    update_tx-IsUnique _ (attach filename bytes revision) db
                      (λ t. unfold attach in refl) q;
                retry_unique = q.retry_unique;
                exact = λ k.
                    unfold attach in
                    ground (
                      arith,
                      e,
                      count-key tx_key id (is_open camera ts) db.transactions q.tx_unique,
                      find_tx-attach k db.transactions,
                      str_eq_iff k id,
                      q.exact k,
                    );
              }))
        ]

  -- Completing a capture, whether it is accepted, refused, or finds that its lease or its evidence has
  -- gone, keeps the queue exact.
  pub complete_thumbnail_retry-IsConsistent :
      (db : Db)
      → IsConsistent db
      → IsConsistent
          (after db (complete_thumbnail_retry id token camera ts filename bytes revision db))
  unfolding complete_thumbnail_retry
  complete_thumbnail_retry-IsConsistent db q =
      go _ (validate_camera_id camera) (is_none (first_where (is_leased_to id token) db.retries))
        refl
    where
      go :
          (u v : AppResult (Unit {0})) (unclaimed : Bool)
          → is_none (first_where (is_leased_to id token) db.retries) ≡ unclaimed
          → IsConsistent (
              after db (
                u
                >> (v
                    >> (if unclaimed
                        then ok (false, db)
                        else ok (complete_claimed id token camera ts filename bytes revision db)))))
      go (err e) v unclaimed h = q
      go (ok a) (err e) unclaimed h = q
      go (ok a) (ok b) true h = q
      go (ok a) (ok b) false h = complete_claimed-IsConsistent db h q

-- Pointing an open transaction at a camera queues its capture, and at none drops it.
pub retarget-IsConsistent :
    (id : String) (camera : Option String) (db : Db) (t : TransactionRow)
    → IsUnique tx_key db.transactions
    → IsUnique retry_key db.retries
    → find_tx id db ≡ some t
    → (is_none t.thumbnail_path && is_none t.thumbnail_retired_at) ≡ true
    → ((k : String)
        → str_eq k id ≡ false
        → is_some (find_retry k db) ≡ is_some_and (find_tx k db) is_runnable)
    → IsConsistent (retarget id camera db)
unfolding retarget
retarget-IsConsistent id camera db t tu ru found isopen others = record {
  tx_unique = update_where-IsUnique tx_key _ _ db.transactions (λ t. refl) tu;
  retry_unique = queue_unique camera;
  exact = λ k. ground (
    arith,
    find-update_row tx_key id (λ t. record t { camera_id = camera }) k db.transactions (λ t. refl),
    find-requeue id k db.retries,
    find-dequeue id k db.retries,
    str_eq_iff k id,
    others k,
  );
}
  where
    queue_unique :
        (c : Option String)
        → IsUnique retry_key (if is_some c then requeue id db.retries else dequeue id db.retries)
    queue_unique none = dequeue-IsUnique id db.retries ru
    queue_unique (some c) = requeue-IsUnique id db.retries ru

pub fail_thumbnail_retry-IsConsistent :
    (id token camera : String) (ts : ℤ) (error : String) (now : ℕ) (db : Db)
    → IsConsistent db
    → IsConsistent (fail_thumbnail_retry id token camera ts error now db).1
unfolding fail_thumbnail_retry
fail_thumbnail_retry-IsConsistent id token camera ts error now db q =
    let a = is_none (first_where (is_leased_to id token) db.retries) in
    let b = is_some_and (find_tx id db) (is_open camera ts) in
    elim (Bool-cases a) [
      | inl e ↦ rw e q
      | inr e ↦ rw e (elim (Bool-cases b) [
        | inl h ↦ rw h (
            update_retries-IsConsistent (is_leased_to id token) (postpone error now) db
              (λ r. unfold postpone in refl) q)
        | inr h ↦ rw h (requeue_changed-IsConsistent id token db q)
      ])
    ]

pub claim_due-IsConsistent :
    (limit : ℤ) (now : ℕ) (token : String) (db : Db)
    → IsConsistent db
    → IsConsistent (claim_due_thumbnail_retries limit now token db).1
unfolding claim_due_thumbnail_retries
claim_due-IsConsistent limit now token db q =
    update_retries-IsConsistent _ (lease token now) db (λ r. unfold lease in refl) q
