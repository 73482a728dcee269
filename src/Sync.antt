-- ===== src/Sync.antt =====
-- src/sync.rs: the delivery of pending alarms. The console's answer to each alarm, the tokens and the clock
-- readings are arguments: the answer comes over the network.
pub mod Deliveries
use square_uni_fi_protect_in.Common.{
  ℕ, zero, suc, ◌+◌, Bool, false, none, some, List, [], ◌∷◌, ◌++◌, String, ℤ, pos, if◌then◌else◌,
  ◌==◌, str_is_empty, AppResult, ok, err,
}
use square_uni_fi_protect_in.Schema.{Db}
use square_uni_fi_protect_in.Store.Settings.{Cipher, setting_value}
use square_uni_fi_protect_in.Store.Alarms.{
  pending_alarm_ids, claim_alarm_trigger, mark_alarm_sent, release_alarm_claim,
}

-- What one attempt for a transaction meets: the token of its claim, the readings of the clock and the
-- console's answer.
pub record AlarmTry : Type 0 where
  pub token : String
  pub now : ℕ
  pub claimed_at : ℕ
  pub answer : AppResult (Unit {0})
  pub delivered_at_ms : ℤ

-- The loop of `retry_alarms`: how many deliveries were recorded, the transactions for which the console was
-- called, and the database.
unfoldable pub deliver_alarms : (String → AlarmTry) → List String → Db → ℕ × List String × Db
deliver_alarms tries [] db = (0, [], db)
deliver_alarms tries (id ∷ ids) db =
    let attempt = tries id in
    let claimed = claim_alarm_trigger id attempt.token attempt.now attempt.claimed_at db in
    elim claimed.0 [
      | none ↦ deliver_alarms tries ids claimed.1
      | some token ↦ elim attempt.answer [
        | err e ↦ (0, id ∷ [], (release_alarm_claim id token claimed.1).1)
        | ok answered ↦
            let marked = mark_alarm_sent id token attempt.delivered_at_ms claimed.1 in
            let rest = deliver_alarms tries ids marked.1 in
            ((if marked.0 then 1 else 0) + rest.0, id ∷ rest.1, rest.2)
      ]
    ]

-- One round: the time at which it lists the pending alarms, and its attempts.
pub record AlarmRound : Type 0 where
  pub listed_at : ℕ
  pub tries : String → AlarmTry

module _ (cipher : Cipher) where
  unfoldable pub retry_alarms : AlarmRound → Db → AppResult ℕ × List String × Db
  retry_alarms round db = elim (setting_value cipher db.settings "protect.alarm_trigger_id") [
    | err e ↦ (err e, [], db)
    | ok trigger ↦ elim trigger [
      | none ↦ (ok 0, [], db)
      | some text ↦
          let pending = pending_alarm_ids (pos 10) round.listed_at db in
          let delivered = deliver_alarms round.tries pending.0 pending.1 in
          if str_is_empty text then (ok 0, [], db) else (ok delivered.0, delivered.1, delivered.2)
    ]
  ]

  -- Another round follows only a full one: `Ok(10)`.
  abbrev pub is_full_batch : AppResult ℕ → Bool
  is_full_batch (ok n) = n == 10
  is_full_batch (err e) = false

  -- The first loop of `drain_protect_queues`, with the number of rounds left.
  unfoldable pub drain_alarms : ℕ → (ℕ → AlarmRound) → Db → List String × Db
  drain_alarms zero rounds db = ([], db)
  drain_alarms (suc n) rounds db =
      let first = retry_alarms (rounds n) db in
      let rest = drain_alarms n rounds first.2 in
      if is_full_batch first.0 then (first.1 ++ rest.0, rest.1) else (first.1, first.2)
