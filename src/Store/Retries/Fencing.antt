-- ===== src/Store/Retries/Fencing.antt =====
-- What a worker's report does: a capture is stored only under the current lease and for open evidence, and a
-- failure is tried again after a bounded pause.
use mathlib.Core.Option
use Prim.Native.Nat.{min, ◌^◌, ◌-◌}
use native.Mathlib.Numerals.{towards_suc}
use square_uni_fi_protect_in.Common.{
  ℕ, zero, suc, ◌+◌, ◌*◌, ◌<◌, ◌≤◌, ◌≡◌, refl, Bool, true, not, ◌&&◌, ◌==◌, ltb, some, String, ℤ,
  if◌then◌else◌, str_eq, str_eq_iff, str_eq_refl, opt_is, is_some_and, is_none, is_negative, arith,
  Bool-cases, inl, inr, ok,
}
use square_uni_fi_protect_in.Table.{
  IsUnique, first_where, count_where, find-update_key, count-key, first_where-key,
  update_where-IsUnique,
}
use square_uni_fi_protect_in.Schema.{
  TransactionRow, RetryRow, Db, tx_key, retry_key, find_tx, find_retry, second,
}
use square_uni_fi_protect_in.Store.Guards.{is_local_filename, validate_camera_id}
use square_uni_fi_protect_in.Store.Retries.{
  is_leased_to, requeue_changed, is_open, attach, complete_claimed, complete_thumbnail_retry,
  claim_due_thumbnail_retries, backoff, postpone, fail_thumbnail_retry,
}
use square_uni_fi_protect_in.Store.Retries.Leases.{claim_respects_lease}

abbrev pub holds_lease : String → String → Db → Bool
holds_lease id token db = is_some_and (find_retry id db) (λ r. opt_is r.lease_token token)

held_iff :
    (id token : String) (db : Db)
    → IsUnique retry_key db.retries
    → is_none (first_where (is_leased_to id token) db.retries) ≡ not (holds_lease id token db)
held_iff id token db u =
    ground (arith, first_where-key retry_key id (λ r. opt_is r.lease_token token) db.retries u)

transactions-requeue_changed :
    (id token : String) (db : Db) → (requeue_changed id token db).transactions ≡ db.transactions
unfolding requeue_changed
transactions-requeue_changed id token db = ground arith

module _ (id token camera : String) (ts : ℤ) (filename : String) (bytes revision : ℤ)
    (db : Db) where
  abbrev is_wanted : Bool
  is_wanted = is_some_and (find_tx id db) (is_open camera ts)

  claimed_result :
      IsUnique tx_key db.transactions
      → (complete_claimed id token camera ts filename bytes revision db).0 ≡ is_wanted
  unfolding complete_claimed
  claimed_result u = ground (arith, count-key tx_key id (is_open camera ts) db.transactions u)

  claimed_rows :
      (k : String)
      → find_tx k (complete_claimed id token camera ts filename bytes revision db).1 ≡ (
          if str_eq k id
          then Option.map
              (λ t. if is_open camera ts t then attach filename bytes revision t else t)
              (find_tx k db)
          else find_tx k db)
  unfolding complete_claimed
  claimed_rows k =
      let p = λ (t : TransactionRow). str_eq t.id id && is_open camera ts t in
      let rows =
        find-update_key tx_key id (is_open camera ts) (attach filename bytes revision) k
          db.transactions (λ t. unfold attach in refl) in
      elim (Bool-cases (count_where p db.transactions == 1)) [
        | inl e ↦ rw e rows
        | inr e ↦ rw e (rw (transactions-requeue_changed id token _) rows)
      ]

  -- With unique keys, a report with a valid file name, camera and numbers is accepted exactly when
  -- its worker holds the lease and the transaction still wants this camera and time. Then its row,
  -- and only its row, gets the image; otherwise every transaction stays as it is.
  pub complete_exact :
      IsUnique tx_key db.transactions
      → IsUnique retry_key db.retries
      → (is_local_filename filename && (not (is_negative bytes) && not (is_negative revision)))
        ≡ true
      → validate_camera_id camera ≡ ok tt
      → (db' : Db) × (complete_thumbnail_retry id token camera ts filename bytes revision db
          ≡ ok (holds_lease id token db && is_wanted, db'))
        × ((k : String)
            → find_tx k db' ≡ (
                if str_eq k id && (holds_lease id token db && is_wanted)
                then Option.map (attach filename bytes revision) (find_tx k db)
                else find_tx k db))
  unfolding complete_thumbnail_retry
  complete_exact ut ur valid checked = elim (Bool-cases (holds_lease id token db)) [
    | inl held ↦ (
      (complete_claimed id token camera ts filename bytes revision db).1,
      ground (arith, valid, checked, held, held_iff id token db ur, claimed_result ut),
      λ k. ground (arith, held, claimed_rows k, str_eq_iff k id),
    )
    | inr gone ↦ (
      db,
      ground (arith, valid, checked, gone, held_iff id token db ur),
      λ k. ground (arith, gone),
    )
  ]

pow_large : (k : ℕ) → 128 ≤ 2 ^ (k + 7)
pow_large zero = omega arith
pow_large (suc k) =
    let e : 2 ^ (suc k + 7) ≡ 2 * 2 ^ (k + 7) = simp towards_suc (omega arith) in
    omega (arith, e, pow_large k)

backoff_capped : (attempts k : ℕ) → min attempts 30 ≡ k + 7 → backoff attempts ≡ 3600
unfolding backoff
backoff_capped attempts k e = rw e (omega (arith, pow_large k))

-- The pause after a failure doubles from half a minute, and is an hour from the eighth failure on.
pub backoff_exact :
    (attempts : ℕ) → backoff attempts ≡ (if ltb attempts 7 then 30 * 2 ^ attempts else 3600)
unfolding backoff
backoff_exact zero = refl
backoff_exact (suc zero) = refl
backoff_exact (suc (suc zero)) = refl
backoff_exact (suc (suc (suc zero))) = refl
backoff_exact (suc (suc (suc (suc zero)))) = refl
backoff_exact (suc (suc (suc (suc (suc zero))))) = refl
backoff_exact (suc (suc (suc (suc (suc (suc zero)))))) = refl
backoff_exact (suc (suc (suc (suc (suc (suc (suc n))))))) =
    let attempts = suc (suc (suc (suc (suc (suc (suc n)))))) in
    ground (arith, backoff_capped attempts (min attempts 30 - 7))

failed_entry :
    (id token camera : String) (ts : ℤ) (error : String) (now : ℕ) (db : Db) (r : RetryRow)
    → IsUnique retry_key db.retries
    → find_retry id db ≡ some r
    → opt_is r.lease_token token ≡ true
    → is_some_and (find_tx id db) (is_open camera ts) ≡ true
    → find_retry id (fail_thumbnail_retry id token camera ts error now db).1
      ≡ some (postpone error now r)
unfolding fail_thumbnail_retry
failed_entry id token camera ts error now db r u e held wanted = ground (
  arith,
  e,
  held,
  wanted,
  held_iff id token db u,
  find-update_key retry_key id (λ r. opt_is r.lease_token token) (postpone error now) id db.retries
      (λ r. unfold postpone in refl),
  str_eq_refl id,
)

fail-IsUnique :
    (id token camera : String) (ts : ℤ) (error : String) (now : ℕ) (db : Db)
    → is_some_and (find_tx id db) (is_open camera ts) ≡ true
    → IsUnique retry_key db.retries
    → IsUnique retry_key (fail_thumbnail_retry id token camera ts error now db).1.retries
unfolding fail_thumbnail_retry
fail-IsUnique id token camera ts error now db wanted u =
    elim (Bool-cases (is_none (first_where (is_leased_to id token) db.retries))) [
      | inl e ↦ rw e u
      | inr e ↦
          rw (e, wanted)
            (update_where-IsUnique retry_key (is_leased_to id token) (postpone error now) db.retries
              (λ r. unfold postpone in refl) u)
    ]

-- With unique queue keys: a failure reported under the current lease, for evidence that is still
-- wanted, gives the lease up, counts the attempt and sets the pause, and a claim before the pause
-- has passed leaves the entry as it is.
pub failure_pauses :
    (id token camera : String) (ts : ℤ) (error : String) (now : ℕ) (db : Db) (r : RetryRow)
    (limit : ℤ) (later : ℕ) (other : String)
    → IsUnique retry_key db.retries
    → find_retry id db ≡ some r
    → opt_is r.lease_token token ≡ true
    → is_some_and (find_tx id db) (is_open camera ts) ≡ true
    → later < now + backoff r.attempts * second
    → (find_retry id (fail_thumbnail_retry id token camera ts error now db).1
        ≡ some (postpone error now r))
      × (find_retry id
            (claim_due_thumbnail_retries limit later other
              (fail_thumbnail_retry id token camera ts error now db).1).1
          ≡ some (postpone error now r))
failure_pauses id token camera ts error now db r limit later other u e held wanted early =
    let failed = failed_entry id token camera ts error now db r u e held wanted in
    (
      failed,
      claim_respects_lease limit later other id
          (fail_thumbnail_retry id token camera ts error now db).1 (postpone error now r)
          (fail-IsUnique id token camera ts error now db wanted u) failed
          (unfold postpone in ground (arith, early)),
    )
