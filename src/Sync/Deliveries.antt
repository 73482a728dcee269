-- ===== src/Sync/Deliveries.antt =====
-- src/sync.rs: for which transactions the console is called.
use square_uni_fi_protect_in.Common.{
  ℕ, zero, suc, ◌≡◌, refl, true, false, ◌||◌, none, some, List, [], ◌∷◌, ◌++◌, String, pos, arith,
  any, str_eq, str_eq_iff, str_is_empty, is_some_and, Bool-cases, Option-cases, AppResult-cases,
  inl, inr,
}
use square_uni_fi_protect_in.Schema.{Db, find_tx}
use square_uni_fi_protect_in.Store.Queue.{IsConsistent}
use square_uni_fi_protect_in.Store.Settings.{Cipher, setting_value}
use square_uni_fi_protect_in.Store.Alarms.{
  pending_alarm_ids, claim_alarm_trigger, mark_alarm_sent, release_alarm_claim,
}
use square_uni_fi_protect_in.Store.Steps.{
  Call, lists_pending, claims_alarm, marks_sent, releases_claim, step,
}
use square_uni_fi_protect_in.Store.Steps.Consistency.{step-IsConsistent}
use square_uni_fi_protect_in.Store.Steps.Stability.Calls.{keeps_account, step_kept}
use square_uni_fi_protect_in.Store.Steps.Facts.{was_sent, was_sent-IsStable, sent_refuses_claim}
use square_uni_fi_protect_in.Sync.{
  AlarmTry, AlarmRound, deliver_alarms, retry_alarms, is_full_batch, drain_alarms,
}

-- A consistent database in which the alarm of a transaction was acknowledged.
abbrev pub IsSettled : String → Db → Type 0
IsSettled id db = IsConsistent db × (is_some_and (find_tx id db) was_sent ≡ true)

step-IsSettled :
    (c : Call) (id : String) (db : Db)
    → keeps_account c ≡ true
    → IsSettled id db
    → IsSettled id (step c db)
step-IsSettled c id db k h =
    (step-IsConsistent c db h.0, step_kept was_sent was_sent-IsStable id c db k h.1)

-- The console is not called for the transaction, which stays settled.
abbrev pub IsSpared : String → List String → Db → Type 0
IsSpared id triggered db = (any (λ k. str_eq k id) triggered ≡ false) × IsSettled id db

-- A granted claim is not on a settled transaction.
claimed_other :
    (id k token token' : String) (now at : ℕ) (db : Db)
    → IsSettled id db
    → (claim_alarm_trigger k token now at db).0 ≡ some token'
    → str_eq k id ≡ false
claimed_other id k token token' now at db h e = elim (Bool-cases (str_eq k id)) [
  | inl m ↦
      let same : k ≡ id = (str_eq_iff k id).0 m in
      let refused : (claim_alarm_trigger k token now at db).0 ≡ none =
        sent_refuses_claim k token now at db h.0.tx_unique (rw same h.1) in
      absurd (ground (arith, e, refused))
  | inr m ↦ m
]

module _ (tries : String → AlarmTry) (id : String) where
  deliver_alarms-IsSpared :
      (ids : List String) (db : Db)
      → IsSettled id db
      → IsSpared id (deliver_alarms tries ids db).1 (deliver_alarms tries ids db).2
  unfolding deliver_alarms
  deliver_alarms-IsSpared [] db h = (refl, h)
  deliver_alarms-IsSpared (k ∷ ids) db h =
      let t = tries k in
      let claimed = claim_alarm_trigger k t.token t.now t.claimed_at db in
      let held : IsSettled id claimed.1 =
        unfold step in step-IsSettled (claims_alarm k t.token t.now t.claimed_at) id db refl h in
      elim (Option-cases claimed.0) [
        | inl e ↦ rw (deliver_alarms, e) (deliver_alarms-IsSpared ids claimed.1 held)
        | inr (token, e) ↦
            let other = claimed_other id k t.token token t.now t.claimed_at db h e in
            let marked = (mark_alarm_sent k token t.delivered_at_ms claimed.1).1 in
            let held' : IsSettled id marked =
              unfold step in
              step-IsSettled (marks_sent k token t.delivered_at_ms) id claimed.1 refl held in
            let freed : IsSettled id (release_alarm_claim k token claimed.1).1 =
              unfold step in step-IsSettled (releases_claim k token) id claimed.1 refl held in
            let rest = deliver_alarms-IsSpared ids marked held' in
            elim (AppResult-cases t.answer) [
              | inl (x, f) ↦ rw (deliver_alarms, e, f) (ground (arith, other), freed)
              | inr (u, f) ↦ rw (deliver_alarms, e, f) (ground (arith, other, rest.0), rest.1)
            ]
      ]

any-append :
    (id : String) (xs ys : List String)
    → any (λ k. str_eq k id) (xs ++ ys) ≡ (any (λ k. str_eq k id) xs || any (λ k. str_eq k id) ys)
any-append id [] ys = refl
any-append id (x ∷ xs) ys = ground (arith, any-append id xs ys)

module _ (cipher : Cipher) (id : String) where
  retry_alarms-IsSpared :
      (round : AlarmRound) (db : Db)
      → IsSettled id db
      → IsSpared id (retry_alarms cipher round db).1 (retry_alarms cipher round db).2
  unfolding retry_alarms
  retry_alarms-IsSpared round db h =
      let pending = pending_alarm_ids (pos 10) round.listed_at db in
      let listed : IsSettled id pending.1 =
        unfold step in step-IsSettled (lists_pending (pos 10) round.listed_at) id db refl h in
      elim (AppResult-cases (setting_value cipher db.settings "protect.alarm_trigger_id")) [
        | inl (x, e) ↦ rw (retry_alarms, e) (refl, h)
        | inr (v, e) ↦ elim (Option-cases v) [
          | inl none_set ↦ rw (retry_alarms, e, none_set) (refl, h)
          | inr (text, set) ↦ elim (Bool-cases (str_is_empty text)) [
            | inl b ↦ rw (retry_alarms, e, set, b) (refl, h)
            | inr b ↦
                rw (retry_alarms, e, set, b)
                  (deliver_alarms-IsSpared round.tries id pending.0 pending.1 listed)
          ]
        ]
      ]

  -- In a consistent database, the console is never called for a transaction whose alarm was acknowledged
  -- before: not in any round of a drain of the queue, whatever its answers, the times and the tokens; and
  -- the database stays consistent with the alarm acknowledged.
  pub drain_spares_acknowledged :
      (n : ℕ) (rounds : ℕ → AlarmRound) (db : Db)
      → IsConsistent db
      → is_some_and (find_tx id db) was_sent ≡ true
      → (any (λ k. str_eq k id) (drain_alarms cipher n rounds db).0 ≡ false)
        × IsConsistent (drain_alarms cipher n rounds db).1
        × (is_some_and (find_tx id (drain_alarms cipher n rounds db).1) was_sent ≡ true)
  unfolding drain_alarms
  drain_spares_acknowledged zero rounds db q h = (refl, q, h)
  drain_spares_acknowledged (suc n) rounds db q h =
      let first = retry_alarms-IsSpared (rounds n) db (q, h) in
      let next = (retry_alarms cipher (rounds n) db).2 in
      let rest = drain_spares_acknowledged n rounds next first.1.0 first.1.1 in
      elim (Bool-cases (is_full_batch cipher (retry_alarms cipher (rounds n) db).0)) [
        | inl full ↦ rw full (
          ground (
            arith,
            first.0,
            rest.0,
            any-append id (retry_alarms cipher (rounds n) db).1
                (drain_alarms cipher n rounds next).0,
          ),
          rest.1,
          rest.2,
        )
        | inr short ↦ rw short (first.0, first.1.0, first.1.1)
      ]
