-- ===== src/Store/Retries/Missing.antt =====
-- src/store.rs: the requeue of a thumbnail whose file is missing keeps the durable queue exact.
use square_uni_fi_protect_in.Common.{
  ◌≡◌, refl, Bool, true, false, not, ◌&&◌, ◌||◌, ◌==◌, Option, none, some, String, if◌then◌else◌,
  str_eq, str_eq_iff, opt_is, arith, Option-cases, inl, inr, is_none, any,
}
use mathlib.Core.Option
use square_uni_fi_protect_in.Table.{IsUnique, count_where, update_where, find-update_key, count-key}
use square_uni_fi_protect_in.Schema.{TransactionRow, Db, tx_key, find_tx}
use square_uni_fi_protect_in.Store.Guards.{is_local_filename}
use square_uni_fi_protect_in.Store.Queue.{IsConsistent}
use square_uni_fi_protect_in.Store.Retries.{
  detach, retarget, current_camera, requeue_missing_thumbnail,
}
-- An update of the queue's rows keeps the invariant.
use square_uni_fi_protect_in.Store.Retries.Queue.{retarget-IsConsistent, update_tx-IsUnique}

-- A vanished file sends its transaction back to the queue, and keeps the queue exact.
module _ (id expected : String) (db : Db) where
  is_shown : TransactionRow → Bool
  is_shown t = opt_is t.thumbnail_path expected && is_none t.thumbnail_retired_at

  detached : Db
  unfolding is_shown
  detached = record db {
    transactions = update_where (λ t. str_eq t.id id && is_shown t) detach db.transactions;
  }

  find_tx-detached :
      (k : String)
      → find_tx k detached ≡ (
          if str_eq k id
          then Option.map (λ t. if is_shown t then detach t else t) (find_tx k db)
          else find_tx k db)
  unfolding detached
  find_tx-detached k =
      find-update_key tx_key id is_shown detach k db.transactions (λ t. unfold detach in refl)

  detached-count :
      IsConsistent db
      → count_where (λ t. str_eq t.id id && is_shown t) db.transactions
        ≡ (elim (find_tx id db) [ none ↦ 0 | some t ↦ if is_shown t then 1 else 0 ])
  detached-count q = count-key tx_key id is_shown db.transactions q.tx_unique

  detached-IsUnique : IsConsistent db → IsUnique tx_key detached.transactions
  unfolding detached
  detached-IsUnique q = update_tx-IsUnique _ detach db (λ t. unfold detach in refl) q

  -- Nothing was shown: the update changed no row.
  detached-IsConsistent :
      ((count_where (λ t. str_eq t.id id && is_shown t) db.transactions == 1) ≡ false)
      → IsConsistent db
      → IsConsistent detached
  detached-IsConsistent h q = record {
    tx_unique = detached-IsUnique q;
    retry_unique = unfold detached in q.retry_unique;
    exact = λ k.
        unfold detached in
        ground (arith, h, detached-count q, find_tx-detached k, str_eq_iff k id, q.exact k);
  }

  retargeted-IsConsistent :
      (camera : Option String)
      → ((count_where (λ t. str_eq t.id id && is_shown t) db.transactions == 1) ≡ true)
      → IsConsistent db
      → IsConsistent (retarget id camera detached)
  retargeted-IsConsistent camera h q = elim (Option-cases (find_tx id db)) [
    | inl e ↦ absurd (ground (arith, h, e, detached-count q))
    | inr (t, e) ↦
        retarget-IsConsistent id camera detached (detach t) (detached-IsUnique q)
          (unfold detached in q.retry_unique)
          (ground (arith, h, e, detached-count q, find_tx-detached id, str_eq_iff id id))
          (unfold detach is_shown in ground (arith, h, e, detached-count q))
          (λ k ne. unfold detached in ground (arith, ne, find_tx-detached k, q.exact k))
  ]

  pub requeue_missing_thumbnail-IsConsistent :
      IsConsistent db → IsConsistent (requeue_missing_thumbnail id expected db).1
  unfolding requeue_missing_thumbnail is_shown detached
  requeue_missing_thumbnail-IsConsistent q =
      go (not (is_local_filename expected) || any (λ name. str_eq name expected) db.files)
        (count_where (λ t. str_eq t.id id && is_shown t) db.transactions == 1) refl
    where
      go :
          (kept changed : Bool)
          → (count_where (λ t. str_eq t.id id && is_shown t) db.transactions == 1) ≡ changed
          → let r : Bool × Db =
              if kept
              then (false, db)
              else if not changed
              then (false, detached)
              else (true, retarget id (current_camera id detached) detached) in
            IsConsistent r.1
      go true changed h = q
      go false false h = detached-IsConsistent h q
      go false true h = retargeted-IsConsistent (current_camera id detached) h q
