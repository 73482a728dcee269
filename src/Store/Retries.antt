-- ===== src/Store/Retries.antt =====
-- src/store.rs, the worker's side of the thumbnail queue: `claim_due_thumbnail_retries`,
-- `complete_thumbnail_retry`, `fail_thumbnail_retry`, `requeue_missing_thumbnail` and
-- `requeue_changed_thumbnail_locked`. The clock reading and the random lease token are arguments.
pub mod Queue
pub mod Missing
pub mod Leases
pub mod Fencing
use Prim.Native.Nat.{min}
use Prim.Native.String
use square_uni_fi_protect_in.Common.{
  ℕ, zero, suc, ◌+◌, ◌*◌, ◌^◌, Bool, true, false, not, ◌&&◌, ◌||◌, Option, none, some, List, [],
  ◌∷◌, String, ℤ, pos, is_negative, eqb_ℤ, leb_ℤ, ltb, leb, ◌==◌, if◌then◌else◌, str_eq, opt_is,
  is_some, is_none, is_none_or, is_some_and, any, take, map, AppResult, ok, unprocessable,
  refuse_if, ◌>>=◌, ◌>>◌,
}
use square_uni_fi_protect_in.Table.{find, first_where, update_where, delete_where, count_where}
use square_uni_fi_protect_in.Schema.{
  TransactionRow, RetryRow, Db, tx_key, find_tx, is_runnable, second,
}
use square_uni_fi_protect_in.Store.Guards.{is_local_filename, validate_camera_id}
use square_uni_fi_protect_in.Store.Cameras.{camera_for_location}
use square_uni_fi_protect_in.Store.Ordering.{order_by, clamp_limit}
use square_uni_fi_protect_in.Store.RetryRows.{reset_retry, requeue, dequeue}

-- WHERE transaction_id = ? AND lease_token = ?.
abbrev pub is_leased_to : String → String → RetryRow → Bool
is_leased_to id token r = str_eq r.transaction_id id && opt_is r.lease_token token

-- `requeue_changed_thumbnail_locked`.
unfoldable pub requeue_changed : String → String → Db → Db
requeue_changed id token db =
    if is_some_and (find_tx id db) is_runnable
    then record db { retries = update_where (is_leased_to id token) reset_retry db.retries }
    else record db { retries = delete_where (is_leased_to id token) db.retries }

-- The evidence that a captured image belongs to is still wanted.
abbrev pub is_open : String → ℤ → TransactionRow → Bool
is_open camera ts t =
    opt_is t.camera_id camera
    && (eqb_ℤ t.ts_ms ts && (is_none t.thumbnail_path && is_none t.thumbnail_retired_at))

unfoldable pub attach : String → ℤ → ℤ → TransactionRow → TransactionRow
attach filename bytes revision t = record t {
  thumbnail_path = some filename;
  thumbnail_bytes = some bytes;
  thumbnail_policy_revision = revision;
}

-- The statements of `complete_thumbnail_retry` behind its checks.
unfoldable pub complete_claimed : String → String → String → ℤ → String → ℤ → ℤ → Db → Bool × Db
complete_claimed id token camera ts filename bytes revision db =
    let p = λ (t : TransactionRow). str_eq t.id id && is_open camera ts t in
    let db' = record db {
      transactions = update_where p (attach filename bytes revision) db.transactions;
    } in
    if count_where p db.transactions == 1
    then (true, record db' { retries = delete_where (is_leased_to id token) db.retries })
    else (false, requeue_changed id token db')

unfoldable pub complete_thumbnail_retry :
    String → String → String → ℤ → String → ℤ → ℤ → Db → AppResult (Bool × Db)
complete_thumbnail_retry id token camera ts filename bytes revision db = do
  refuse_if (not (is_local_filename filename) || (is_negative bytes || is_negative revision))
      unprocessable
  validate_camera_id camera
  (if is_none (first_where (is_leased_to id token) db.retries)
      then ok (false, db)
      else ok (complete_claimed id token camera ts filename bytes revision db))

-- SET thumbnail_path=NULL, thumbnail_bytes=NULL, thumbnail_policy_revision=0.
unfoldable pub detach : TransactionRow → TransactionRow
detach t = record t {
  thumbnail_path = none;
  thumbnail_bytes = none;
  thumbnail_policy_revision = pos 0;
}

-- The camera for the register of a stored transaction, unless its evidence was retired.
unfoldable pub current_camera : String → Db → Option String
current_camera id db =
    if any (λ r. str_eq r id) db.evidence_retired then none else elim (find_tx id db) [
      | none ↦ none
      | some t ↦ elim (camera_for_location db.camera_map t.location_id t.device_id) [
        | none ↦ none
        | some m ↦ some m.camera_id
      ]
    ]

-- Point a transaction at a camera, and queue or drop its capture.
unfoldable pub retarget : String → Option String → Db → Db
retarget id camera db = record db {
  transactions =
      update_where (λ t. str_eq t.id id) (λ t. record t { camera_id = camera }) db.transactions;
  retries = if is_some camera then requeue id db.retries else dequeue id db.retries;
}

unfoldable pub requeue_missing_thumbnail : String → String → Db → Bool × Db
requeue_missing_thumbnail id expected db =
    let p = λ (t : TransactionRow).
      str_eq t.id id && (opt_is t.thumbnail_path expected && is_none t.thumbnail_retired_at) in
    let db' = record db { transactions = update_where p detach db.transactions } in
    if not (is_local_filename expected) || any (λ name. str_eq name expected) db.files
    then (false, db)
    else if not (count_where p db.transactions == 1)
    then (false, db')
    else (true, retarget id (current_camera id db') db')

-- A queue entry whose time has come, that no worker holds, of a transaction that can be captured.
abbrev pub is_due : ℕ → RetryRow → TransactionRow → Bool
is_due now r t =
    leb r.next_attempt_at now
    && (is_none_or r.lease_expires_at (λ expiry. leb expiry now) && is_runnable t)

-- JOIN transactions t ON t.id = r.transaction_id.
unfoldable pub due_entries :
    ℕ → List TransactionRow → List RetryRow → List (RetryRow × TransactionRow)
due_entries now txs [] = []
due_entries now txs (r ∷ rows) =
    let rest = due_entries now txs rows in
    elim (find tx_key r.transaction_id txs) [
      | none ↦ rest
      | some t ↦ if is_due now r t then (r, t) ∷ rest else rest
    ]

-- ORDER BY next_attempt_at, ts_ms.
abbrev pub comes_before : RetryRow × TransactionRow → RetryRow × TransactionRow → Bool
comes_before (r, t) (s, u) =
    ltb r.next_attempt_at s.next_attempt_at
    || (r.next_attempt_at == s.next_attempt_at && leb_ℤ t.ts_ms u.ts_ms)

unfoldable pub picked : ℤ → ℕ → Db → List (RetryRow × TransactionRow)
picked limit now db =
    take (clamp_limit limit 100)
      (order_by comes_before (due_entries now db.transactions db.retries))

unfoldable pub lease : String → ℕ → RetryRow → RetryRow
lease token now r = record r {
  lease_token = some token;
  lease_expires_at = some (now + 60 * second);
}

unfoldable pub leased_entries :
    String → List TransactionRow → List RetryRow → List (RetryRow × TransactionRow)
leased_entries token txs [] = []
leased_entries token txs (r ∷ rows) =
    let rest = leased_entries token txs rows in
    elim (find tx_key r.transaction_id txs) [
      | none ↦ rest
      | some t ↦ if opt_is r.lease_token token then (r, t) ∷ rest else rest
    ]

-- A claimed transaction with its number of attempts; every one carries the new lease token.
unfoldable pub claim_due_thumbnail_retries :
    ℤ → ℕ → String → Db → List (TransactionRow × ℕ × String) × Db
claim_due_thumbnail_retries limit now token db =
    let ids = map (λ (e : RetryRow × TransactionRow). e.0.transaction_id) (picked limit now db) in
    let rows =
      update_where (λ r. any (λ id. str_eq id r.transaction_id) ids) (lease token now) db.retries in
    (
      map (λ (e : RetryRow × TransactionRow). (e.1, e.0.attempts, token))
          (order_by comes_before (leased_entries token db.transactions rows)),
      record db { retries = rows },
    )

-- `30 << attempts`, at most an hour, in seconds.
unfoldable pub backoff : ℕ → ℕ
backoff attempts = min (30 * 2 ^ min attempts 30) 3600

abbrev pub take_chars : ℕ → String → String
take_chars zero s = ""
take_chars (suc n) String.[] = ""
take_chars (suc n) (String.◌∷◌ c s) = String.◌∷◌ c (take_chars n s)

unfoldable pub postpone : String → ℕ → RetryRow → RetryRow
postpone error now r = record r {
  attempts = r.attempts + 1;
  next_attempt_at = now + backoff r.attempts * second;
  lease_token = none;
  lease_expires_at = none;
  last_error = take_chars 1000 error;
}

unfoldable pub fail_thumbnail_retry : String → String → String → ℤ → String → ℕ → Db → Bool × Db
fail_thumbnail_retry id token camera ts error now db =
    if is_none (first_where (is_leased_to id token) db.retries)
    then (false, db)
    else if is_some_and (find_tx id db) (is_open camera ts)
    then (
      count_where (is_leased_to id token) db.retries == 1,
      record db { retries = update_where (is_leased_to id token) (postpone error now) db.retries },
    )
    else (true, requeue_changed id token db)
