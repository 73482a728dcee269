-- ===== src/Store/Evidence/Retirement.antt =====
-- src/store.rs: retiring a thumbnail keeps the durable queue of thumbnails exact.
use mathlib.Core.Option
use square_uni_fi_protect_in.Common.{
  ◌≡◌, refl, Bool, not, ◌&&◌, ◌||◌, ◌==◌, String, ℤ, if◌then◌else◌, str_eq, str_eq_iff, arith,
  Bool-cases, inl, inr,
}
use square_uni_fi_protect_in.Table.{
  find, IsUnique, count_where, update_where, find-update_key, count-key, update_where-IsUnique,
}
use square_uni_fi_protect_in.Schema.{Db, tx_key, find_tx, after}
use square_uni_fi_protect_in.Store.RetryRows.{find-dequeue, dequeue-IsUnique}
use square_uni_fi_protect_in.Store.Queue.{IsConsistent}
use square_uni_fi_protect_in.Store.Evidence.{is_stored_at, expire, retire_thumbnail}

-- Retiring a thumbnail by age or quota keeps the queue exact, on every outcome.
module _ (id path : String) (now_ms : ℤ) (reason : String) (db : Db) where
  find_tx-expire :
      (k : String)
      → find tx_key k (
          update_where
            (λ t. str_eq t.id id && is_stored_at path t)
            (expire now_ms reason)
            db.transactions)
        ≡ (if str_eq k id
            then Option.map
                (λ t. if is_stored_at path t then expire now_ms reason t else t)
                (find_tx k db)
            else find_tx k db)
  find_tx-expire k =
      find-update_key tx_key id (is_stored_at path) (expire now_ms reason) k db.transactions
        (λ t. unfold expire in refl)

  expired-IsUnique :
      IsConsistent db
      → IsUnique tx_key (
          update_where
            (λ t. str_eq t.id id && is_stored_at path t)
            (expire now_ms reason)
            db.transactions)
  expired-IsUnique q =
      update_where-IsUnique tx_key _ (expire now_ms reason) db.transactions
        (λ t. unfold expire in refl) q.tx_unique

  pub retire_thumbnail-IsConsistent :
      (same_policy : Bool)
      → IsConsistent db
      → IsConsistent (after db (retire_thumbnail id path same_policy now_ms reason db))
  unfolding retire_thumbnail
  retire_thumbnail-IsConsistent same_policy q =
      elim (Bool-cases (not (str_eq reason "age" || str_eq reason "quota"))) [
        | inl e ↦ rw e q
        | inr e ↦ rw e (elim (Bool-cases (not same_policy)) [
          | inl s ↦ rw s q
          | inr s ↦
              rw s
                (elim (Bool-cases
                  (count_where (λ t. str_eq t.id id && is_stored_at path t) db.transactions == 1)) [
                    | inl c ↦ rw c (record {
                      tx_unique = expired-IsUnique q;
                      retry_unique = dequeue-IsUnique id db.retries q.retry_unique;
                      exact = λ k.
                          unfold expire in
                          ground (
                            arith,
                            c,
                            count-key tx_key id (is_stored_at path) db.transactions q.tx_unique,
                            find_tx-expire k,
                            find-dequeue id k db.retries,
                            str_eq_iff k id,
                            q.exact k,
                          );
                    })
                    | inr c ↦ rw c (record {
                      tx_unique = expired-IsUnique q;
                      retry_unique = q.retry_unique;
                      exact = λ k.
                          unfold expire in
                          ground (
                            arith,
                            c,
                            count-key tx_key id (is_stored_at path) db.transactions q.tx_unique,
                            find_tx-expire k,
                            str_eq_iff k id,
                            q.exact k,
                          );
                    })
                  ])
        ])
      ]
