-- ===== src/Store/RetryRows.antt =====
-- src/store.rs: the statements on `thumbnail_retries` that several operations share, and what each
-- does to the row of a transaction.
use mathlib.Core.Option
use square_uni_fi_protect_in.Common.{
  ◌≡◌, refl, ◌∙◌, Option, none, some, List, [], ◌∷◌, ◌++◌, String, if◌then◌else◌, str_eq,
  str_eq_iff, arith, Option-cases, inl, inr,
}
use square_uni_fi_protect_in.Table.{
  IsUnique, append-IsUnique, update_where-IsUnique, delete_where-IsUnique, find, update_where,
  delete_where, find-append, find-update_where, find-delete_key, find-key,
}
use square_uni_fi_protect_in.Schema.{RetryRow, retry_key}

-- A row with the defaults of the schema, which is also what the conflict clause resets a row to.
unfoldable pub fresh_retry : String → RetryRow
fresh_retry id = record {
  transaction_id = id;
  attempts = 0;
  next_attempt_at = 0;
  lease_token = none;
  lease_expires_at = none;
  last_error = "";
}

-- SET attempts=0, next_attempt_at=0, lease_token=NULL, lease_expires_at=NULL, last_error=''.
unfoldable pub reset_retry : RetryRow → RetryRow
reset_retry r = record r {
  attempts = 0;
  next_attempt_at = 0;
  lease_token = none;
  lease_expires_at = none;
  last_error = "";
}

-- INSERT … ON CONFLICT(transaction_id) DO UPDATE SET attempts=0, ….
unfoldable pub requeue : String → List RetryRow → List RetryRow
requeue id rows = elim (find retry_key id rows) [
  | none ↦ rows ++ fresh_retry id ∷ []
  | some old ↦ update_where (λ r. str_eq r.transaction_id id) reset_retry rows
]

-- INSERT OR IGNORE.
unfoldable pub enqueue_if_absent : String → List RetryRow → List RetryRow
enqueue_if_absent id rows = elim (find retry_key id rows) [
  | none ↦ rows ++ fresh_retry id ∷ []
  | some old ↦ rows
]

-- DELETE … WHERE transaction_id = ?.
unfoldable pub dequeue : String → List RetryRow → List RetryRow
dequeue id rows = delete_where (λ r. str_eq r.transaction_id id) rows

reset-fresh : (id : String) (r : RetryRow) → r.transaction_id ≡ id → reset_retry r ≡ fresh_retry id
unfolding reset_retry fresh_retry
reset-fresh id r e = ground arith

reset_at :
    {id k : String} (old : RetryRow) (o : Option RetryRow)
    → ((r : RetryRow) → o ≡ some r → r.transaction_id ≡ k)
    → (k ≡ id → o ≡ some old)
    → Option.map (λ r. if str_eq r.transaction_id id then reset_retry r else r) o
      ≡ (if str_eq k id then some (fresh_retry id) else o)
reset_at {id} {k} old none keyed found = ground (arith, str_eq_iff k id, found)
reset_at {id} {k} old (some r) keyed found =
    ground (arith, keyed r refl, str_eq_iff r.transaction_id id, str_eq_iff k id, reset-fresh id r)

-- A requeued transaction has a row as if it were new, and no other row changes.
pub find-requeue :
    (id k : String) (rows : List RetryRow)
    → find retry_key k (requeue id rows)
      ≡ (if str_eq k id then some (fresh_retry id) else find retry_key k rows)
unfolding requeue
find-requeue id k rows = elim (Option-cases (find retry_key id rows)) [
  | inl e ↦
      rw (e, requeue)
        (find-append retry_key k rows (fresh_retry id)
          ∙ unfold fresh_retry in ground (arith, e, str_eq_iff k id, str_eq_iff id k))
  | inr (old, e) ↦
      rw (e, requeue)
        (find-update_where retry_key (λ r. str_eq r.transaction_id id) reset_retry k rows
            (λ r. unfold reset_retry in refl)
          ∙ reset_at old (find retry_key k rows) (find-key retry_key k rows) (λ same. rw same e))
]

pub find-enqueue_if_absent :
    (id k : String) (rows : List RetryRow)
    → find retry_key k (enqueue_if_absent id rows) ≡ (elim (find retry_key k rows) [
      | some r ↦ some r
      | none ↦ if str_eq k id then some (fresh_retry id) else none
    ])
unfolding enqueue_if_absent
find-enqueue_if_absent id k rows = elim (Option-cases (find retry_key id rows)) [
  | inl e ↦
      rw (e, enqueue_if_absent)
        (find-append retry_key k rows (fresh_retry id)
          ∙ unfold fresh_retry in ground (arith, str_eq_iff k id, str_eq_iff id k))
  | inr (old, e) ↦ rw (e, enqueue_if_absent) (ground (arith, e, str_eq_iff k id))
]

pub find-dequeue :
    (id k : String) (rows : List RetryRow)
    → find retry_key k (dequeue id rows) ≡ (if str_eq k id then none else find retry_key k rows)
unfolding dequeue
find-dequeue id k rows = find-delete_key retry_key id k rows

pub requeue-IsUnique :
    (id : String) (rows : List RetryRow)
    → IsUnique retry_key rows
    → IsUnique retry_key (requeue id rows)
unfolding requeue
requeue-IsUnique id rows u = elim (Option-cases (find retry_key id rows)) [
  | inl e ↦
      rw (e, requeue) (append-IsUnique retry_key rows (fresh_retry id) (unfold fresh_retry in e) u)
  | inr (old, e) ↦
      rw (e, requeue)
        (update_where-IsUnique retry_key (λ r. str_eq r.transaction_id id) reset_retry rows
          (λ r. unfold reset_retry in refl) u)
]

pub enqueue_if_absent-IsUnique :
    (id : String) (rows : List RetryRow)
    → IsUnique retry_key rows
    → IsUnique retry_key (enqueue_if_absent id rows)
unfolding enqueue_if_absent
enqueue_if_absent-IsUnique id rows u = elim (Option-cases (find retry_key id rows)) [
  | inl e ↦
      rw (e, enqueue_if_absent)
        (append-IsUnique retry_key rows (fresh_retry id) (unfold fresh_retry in e) u)
  | inr (old, e) ↦ rw (e, enqueue_if_absent) u
]

pub dequeue-IsUnique :
    (id : String) (rows : List RetryRow)
    → IsUnique retry_key rows
    → IsUnique retry_key (dequeue id rows)
unfolding dequeue
dequeue-IsUnique id rows u = delete_where-IsUnique retry_key _ rows u
