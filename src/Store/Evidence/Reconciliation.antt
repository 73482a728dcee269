-- ===== src/Store/Evidence/Reconciliation.antt =====
-- src/store.rs: the reconciliation with the thumbnail files keeps the durable queue exact.
use square_uni_fi_protect_in.Common.{
  ◌≡◌, refl, Bool, true, false, not, ◌||◌, List, [], ◌∷◌, String, ℤ, if◌then◌else◌, str_eq,
  str_eq_iff, arith, Bool-cases, inl, inr, is_some, is_some_and,
}
use square_uni_fi_protect_in.Table.{
  find, IsUnique, update_where, find-update_where, update_where-IsUnique,
}
use square_uni_fi_protect_in.Schema.{
  TransactionRow, RetryRow, Db, tx_key, retry_key, find_tx, is_runnable,
}
use square_uni_fi_protect_in.Store.RetryRows.{
  enqueue_if_absent, find-enqueue_if_absent, enqueue_if_absent-IsUnique,
}
use square_uni_fi_protect_in.Store.Retries.{detach}
use square_uni_fi_protect_in.Store.Queue.{IsConsistent}
use square_uni_fi_protect_in.Store.Evidence.{
  has_file, enqueue_runnable, account, reconcile_missing_thumbnails,
}

-- The queue after `enqueue_runnable`: what was there, and the runnable rows.
find-enqueue_runnable :
    (k : String) (rows : List TransactionRow) (retries : List RetryRow)
    → IsUnique tx_key rows
    → is_some (find retry_key k (enqueue_runnable rows retries))
      ≡ (is_some (find retry_key k retries) || is_some_and (find tx_key k rows) is_runnable)
unfolding enqueue_runnable find
find-enqueue_runnable k [] retries u = ground arith
find-enqueue_runnable k (t ∷ rows) retries u = elim (Bool-cases (str_eq t.id k)) [
  | inl same ↦ ground (
    arith,
    same,
    rw ((str_eq_iff t.id k).0 same) at u.0,
    find-enqueue_runnable k rows (if is_runnable t then enqueue_if_absent t.id retries else retries)
        u.1,
    find-enqueue_if_absent t.id k retries,
    str_eq_iff k t.id,
    str_eq_iff t.id k,
  )
  | inr other ↦ ground (
    arith,
    other,
    find-enqueue_runnable k rows (if is_runnable t then enqueue_if_absent t.id retries else retries)
        u.1,
    find-enqueue_if_absent t.id k retries,
    str_eq_iff k t.id,
    str_eq_iff t.id k,
  )
]

enqueue_runnable-IsUnique :
    (rows : List TransactionRow) (retries : List RetryRow)
    → IsUnique retry_key retries
    → IsUnique retry_key (enqueue_runnable rows retries)
unfolding enqueue_runnable
enqueue_runnable-IsUnique [] retries u = u
enqueue_runnable-IsUnique (t ∷ rows) retries u = elim (Bool-cases (is_runnable t)) [
  | inl e ↦ rw e (enqueue_runnable-IsUnique rows _ (enqueue_if_absent-IsUnique t.id retries u))
  | inr e ↦ rw e (enqueue_runnable-IsUnique rows retries u)
]

-- At its start the service detaches thumbnails whose files are gone, and the queue is exact again.
module _ (size : String → ℤ) (db : Db) where
  reconciled : List TransactionRow
  reconciled =
      update_where (λ t. not (has_file db.files t)) detach
        (update_where (has_file db.files) (account size) db.transactions)

  reconciled-IsUnique : IsConsistent db → IsUnique tx_key reconciled
  unfolding reconciled
  reconciled-IsUnique q =
      update_where-IsUnique tx_key _ detach _ (λ t. unfold detach in refl)
        (update_where-IsUnique tx_key _ (account size) db.transactions (λ t. unfold account in refl)
          q.tx_unique)

  -- A row that was runnable before still is.
  runnable_kept :
      (k : String)
      → is_some_and (find_tx k db) is_runnable ≡ true
      → is_some_and (find tx_key k reconciled) is_runnable ≡ true
  unfolding reconciled account detach has_file
  runnable_kept k h = ground (
    arith,
    h,
    find-update_where tx_key (λ t. not (has_file db.files t)) detach k
        (update_where (has_file db.files) (account size) db.transactions)
        (λ t. unfold detach in refl),
    find-update_where tx_key (has_file db.files) (account size) k db.transactions
        (λ t. unfold account in refl),
  )

  -- Reconciliation of a consistent database with the files in the thumbnail directory leaves it
  -- consistent.
  pub reconcile-IsConsistent : IsConsistent db → IsConsistent (reconcile_missing_thumbnails size db)
  unfolding reconcile_missing_thumbnails reconciled
  reconcile-IsConsistent q = record {
    tx_unique = reconciled-IsUnique q;
    retry_unique = enqueue_runnable-IsUnique reconciled db.retries q.retry_unique;
    exact = λ k.
        absorb _ _ _ (find-enqueue_runnable k reconciled db.retries (reconciled-IsUnique q))
          (q.exact k) (runnable_kept k);
  }
    where
      absorb : (a b c : Bool) {r : Bool} → r ≡ (a || c) → a ≡ b → (b ≡ true → c ≡ true) → r ≡ c
      absorb true b true e h f = e
      absorb true b false e h f = ground (arith, e, h, f)
      absorb false b c e h f = e
