-- ===== src/Store/Retries/Leases.antt =====
-- src/store.rs, `claim_due_thumbnail_retries`: a lease or a pause that still runs excludes the claims of all workers.
use square_uni_fi_protect_in.Common.{
  ℕ, ◌≡◌, refl, false, ◌&&◌, leb, none, some, List, [], ◌∷◌, String, ℤ, str_eq, str_eq_iff,
  is_none_or, any, map, arith, Bool-cases, inl, inr, take,
}
use square_uni_fi_protect_in.Table.{find, IsUnique, find-update_where, find-key}
use square_uni_fi_protect_in.Schema.{TransactionRow, RetryRow, Db, retry_key, find_retry}
use square_uni_fi_protect_in.Store.Ordering.{order_by, any-order_by, any-take, clamp_limit}
use square_uni_fi_protect_in.Store.Retries.{
  due_entries, comes_before, picked, lease, claim_due_thumbnail_retries,
}

-- A retry that waits for a later time, or that another worker holds, is not among the entries due.
due_entries_missing :
    (now : ℕ) (txs : List TransactionRow) (id : String) (rows : List RetryRow)
    → find retry_key id rows ≡ none
    → any (λ e. str_eq e.0.transaction_id id) (due_entries now txs rows) ≡ false
unfolding find due_entries
due_entries_missing now txs id [] h = refl
due_entries_missing now txs id (r ∷ rows) h = ground (arith, h, due_entries_missing now txs id rows)

due_entries_held :
    (now : ℕ) (txs : List TransactionRow) (id : String) (rows : List RetryRow) (r : RetryRow)
    → IsUnique retry_key rows
    → find retry_key id rows ≡ some r
    → (leb r.next_attempt_at now && is_none_or r.lease_expires_at (λ expiry. leb expiry now))
      ≡ false
    → any (λ e. str_eq e.0.transaction_id id) (due_entries now txs rows) ≡ false
unfolding find due_entries
due_entries_held now txs id [] r u e h = refl
due_entries_held now txs id (x ∷ rows) r u e h = elim (Bool-cases (str_eq x.transaction_id id)) [
  | inl same ↦ ground (
    arith,
    same,
    e,
    h,
    due_entries_missing now txs id rows (rw ((str_eq_iff x.transaction_id id).0 same) at u.0),
  )
  | inr other ↦ ground (arith, other, e, h, due_entries_held now txs id rows r u.1)
]

any-map :
    (id : String) (entries : List (RetryRow × TransactionRow))
    → any (λ k. str_eq k id) (map (λ (e : RetryRow × TransactionRow). e.0.transaction_id) entries)
      ≡ any (λ e. str_eq e.0.transaction_id id) entries
any-map id [] = refl
any-map id (e ∷ entries) = ground (arith, any-map id entries)

not_picked :
    (limit : ℤ) (now : ℕ) (id : String) (db : Db)
    → any (λ e. str_eq e.0.transaction_id id) (due_entries now db.transactions db.retries) ≡ false
    → any
        (λ k. str_eq k id)
        (map (λ (e : RetryRow × TransactionRow). e.0.transaction_id) (picked limit now db))
      ≡ false
unfolding picked
not_picked limit now id db h =
    let entries = due_entries now db.transactions db.retries in
    let p = λ (e : RetryRow × TransactionRow). str_eq e.0.transaction_id id in
    ground (
      arith,
      h,
      any-map id (take (clamp_limit limit 100) (order_by comes_before entries)),
      any-take p (clamp_limit limit 100) (order_by comes_before entries),
      any-order_by comes_before p entries,
    )

-- With unique queue keys: a queue entry whose time has not come, or whose lease has not expired,
-- is left as it is by a claim of any size.
pub claim_respects_lease :
    (limit : ℤ) (now : ℕ) (token id : String) (db : Db) (r : RetryRow)
    → IsUnique retry_key db.retries
    → find_retry id db ≡ some r
    → (leb r.next_attempt_at now && is_none_or r.lease_expires_at (λ expiry. leb expiry now))
      ≡ false
    → find_retry id (claim_due_thumbnail_retries limit now token db).1 ≡ some r
unfolding claim_due_thumbnail_retries
claim_respects_lease limit now token id db r u e h =
    let ids = map (λ (e : RetryRow × TransactionRow). e.0.transaction_id) (picked limit now db) in
    ground (
      arith,
      e,
      find-update_where retry_key (λ r. any (λ k. str_eq k r.transaction_id) ids) (lease token now)
          id db.retries (λ r. unfold lease in refl),
      find-key retry_key id db.retries r e,
      not_picked limit now id db (due_entries_held now db.transactions id db.retries r u e h),
    )
