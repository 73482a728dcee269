-- ===== src/Store/Alarms/Claims.antt =====
-- src/store.rs, `claim_alarm_trigger`: when a claim is granted, and when refused.
use mathlib.Core.Option
use square_uni_fi_protect_in.Common.{
  ℕ, ◌+◌, ◌*◌, ◌<◌, ◌≡◌, refl, ◌∙◌, none, some, List, String, if◌then◌else◌, str_eq, str_eq_refl,
  is_some_and, arith,
}
use square_uni_fi_protect_in.Table.{
  find, IsUnique, find-update_key, find-update_where, count-key, update_where-IsUnique,
}
use square_uni_fi_protect_in.Schema.{TransactionRow, Db, tx_key, find_tx, second}
use square_uni_fi_protect_in.Store.Alarms.{
  is_expired_claim, unclaim, release_expired, is_pending, claim, claim_alarm_trigger,
}

-- A row once expired claims are released.
abbrev pub released : ℕ → TransactionRow → TransactionRow
released now t = if is_expired_claim now t then unclaim t else t

find-release_expired :
    (now : ℕ) (k : String) (rows : List TransactionRow)
    → find tx_key k (release_expired now rows) ≡ Option.map (released now) (find tx_key k rows)
unfolding release_expired
find-release_expired now k rows =
    find-update_where tx_key (is_expired_claim now) unclaim k rows (λ t. unfold unclaim in refl)

release_expired-IsUnique :
    (now : ℕ) (rows : List TransactionRow)
    → IsUnique tx_key rows
    → IsUnique tx_key (release_expired now rows)
unfolding release_expired
release_expired-IsUnique now rows u =
    update_where-IsUnique tx_key (is_expired_claim now) unclaim rows (λ t. unfold unclaim in refl) u

module _ (id token : String) (now at : ℕ) (db : Db) where
  pub find_tx-claim :
      (k : String)
      → find_tx k (claim_alarm_trigger id token now at db).1 ≡ (
          if str_eq k id
          then Option.map
              (λ t. if is_pending t then claim token at t else t)
              (Option.map (released now) (find_tx k db))
          else Option.map (released now) (find_tx k db))
  unfolding claim_alarm_trigger
  find_tx-claim k =
      find-update_key tx_key id is_pending (claim token at) k (release_expired now db.transactions)
        (λ t. unfold claim in refl)
      ∙ rw (find-release_expired now k db.transactions) refl

  -- With unique transaction ids: a claim is granted exactly when the row, its expired claim
  -- released, is completed and idle.
  pub claim_granted :
      IsUnique tx_key db.transactions
      → (claim_alarm_trigger id token now at db).0 ≡ (
          if is_some_and (find_tx id db) (λ t. is_pending (released now t))
          then some token
          else none)
  unfolding claim_alarm_trigger
  claim_granted u = ground (
    arith,
    count-key tx_key id is_pending (release_expired now db.transactions)
        (release_expired-IsUnique now db.transactions u),
    find-release_expired now id db.transactions,
  )

  pub claim-IsUnique :
      IsUnique tx_key db.transactions
      → IsUnique tx_key (claim_alarm_trigger id token now at db).1.transactions
  unfolding claim_alarm_trigger
  claim-IsUnique u =
      update_where-IsUnique tx_key _ (claim token at) _ (λ t. unfold claim in refl)
        (release_expired-IsUnique now db.transactions u)

-- With unique transaction ids: while a granted claim is less than a minute old, no other claim on
-- the same transaction is granted.
pub claim_exclusive :
    (id token other : String) (now at later at' : ℕ) (db : Db)
    → IsUnique tx_key db.transactions
    → (claim_alarm_trigger id token now at db).0 ≡ some token
    → later < at + 60 * second
    → (claim_alarm_trigger id other later at' (claim_alarm_trigger id token now at db).1).0 ≡ none
claim_exclusive id token other now at later at' db u granted young =
    unfold claim in
    ground (
      arith,
      granted,
      claim_granted id token now at db u,
      claim_granted id other later at' (claim_alarm_trigger id token now at db).1
          (claim-IsUnique id token now at db u),
      find_tx-claim id token now at db id,
      str_eq_refl id,
    )
