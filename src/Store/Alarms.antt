-- ===== src/Store/Alarms.antt =====
-- src/store.rs, the delivery of sale alarms: `pending_alarm_ids`, `claim_alarm_trigger`, `mark_alarm_sent`,
-- `release_alarm_claim` and `suppress_pending_alarms`. Clock readings and random tokens are arguments;
-- `claim_alarm_trigger` reads the clock twice.
pub mod Claims
pub mod Summary
use square_uni_fi_protect_in.Common.{
  ℕ, ◌+◌, ◌*◌, Bool, not, ◌&&◌, ◌||◌, Option, none, some, List, ◌∷◌, String, ℤ, pos, leb, leb_ℤ,
  ◌==◌, if◌then◌else◌, str_eq, opt_is, is_none_or, upper_is, max_ℤ, map, take,
}
use square_uni_fi_protect_in.Table.{update_where, count_where, select_where}
use square_uni_fi_protect_in.Schema.{
  TransactionRow, Db, idle, in_progress, sent, is_idle, is_in_progress, is_sent, second,
}
use square_uni_fi_protect_in.Store.Ordering.{order_by, clamp_limit}
use square_uni_fi_protect_in.Store.Ingest.{silence}

-- A claim that is a minute old, or that has no time.
abbrev pub is_expired_claim : ℕ → TransactionRow → Bool
is_expired_claim now t =
    is_in_progress t.alarm_state && is_none_or t.alarm_claimed_at (λ at. leb (at + 60 * second) now)

-- SET alarm_state='idle', alarm_claim_token=NULL, alarm_claimed_at=NULL.
unfoldable pub unclaim : TransactionRow → TransactionRow
unclaim t = record t { alarm_state = idle; alarm_claim_token = none; alarm_claimed_at = none }

unfoldable pub release_expired : ℕ → List TransactionRow → List TransactionRow
release_expired now rows = update_where (is_expired_claim now) unclaim rows

-- UPPER(status)='COMPLETED' AND alarm_state='idle'.
abbrev pub is_pending : TransactionRow → Bool
is_pending t = upper_is t.status "COMPLETED" && is_idle t.alarm_state

unfoldable pub pending_alarm_ids : ℤ → ℕ → Db → List String × Db
pending_alarm_ids limit now db =
    let rows = release_expired now db.transactions in
    (
      map (λ (t : TransactionRow). t.id)
          (take (clamp_limit limit 500)
            (order_by (λ t u. leb_ℤ t.ts_ms u.ts_ms) (select_where is_pending rows))),
      record db { transactions = rows },
    )

unfoldable pub claim : String → ℕ → TransactionRow → TransactionRow
claim token at t = record t {
  alarm_state = in_progress;
  alarm_claim_token = some token;
  alarm_claimed_at = some at;
}

unfoldable pub claim_alarm_trigger : String → String → ℕ → ℕ → Db → Option String × Db
claim_alarm_trigger id token now at db =
    let rows = release_expired now db.transactions in
    let p = λ (t : TransactionRow). str_eq t.id id && is_pending t in
    (
      if count_where p rows == 1 then some token else none,
      record db { transactions = update_where p (claim token at) rows },
    )

-- WHERE alarm_state='in_progress' AND alarm_claim_token=?.
abbrev pub is_held_by : String → TransactionRow → Bool
is_held_by token t = is_in_progress t.alarm_state && opt_is t.alarm_claim_token token

unfoldable pub deliver : ℤ → TransactionRow → TransactionRow
deliver at_ms t = record t {
  alarm_state = sent;
  alarm_claim_token = none;
  alarm_claimed_at = none;
  alarm_delivered_at_ms = some (max_ℤ at_ms (pos 0));
}

unfoldable pub mark_alarm_sent : String → String → ℤ → Db → Bool × Db
mark_alarm_sent id token at_ms db =
    let p = λ (t : TransactionRow). str_eq t.id id && is_held_by token t in
    (
      count_where p db.transactions == 1,
      record db { transactions = update_where p (deliver at_ms) db.transactions },
    )

unfoldable pub release_alarm_claim : String → String → Db → Bool × Db
release_alarm_claim id token db =
    let p = λ (t : TransactionRow). str_eq t.id id && is_held_by token t in
    (
      count_where p db.transactions == 1,
      record db { transactions = update_where p unclaim db.transactions },
    )

unfoldable pub suppress_pending_alarms : Db → Db
suppress_pending_alarms db = record db {
  transactions =
      update_where (λ t. upper_is t.status "COMPLETED" && not (is_sent t.alarm_state)) silence
        db.transactions;
}
