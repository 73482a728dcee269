-- ===== src/Store/Steps/Facts.antt =====
-- Facts that hold for good: a sent alarm, the latest version of a payment, and its refunds.
use square_uni_fi_protect_in.Common.{
  ℕ, ◌≡◌, refl, Bool, true, none, some, List, String, ℤ, leb_ℤ, max_ℤ, is_some_and, arith, All,
  str_eq_refl, Option-cases, inl, inr,
}
use square_uni_fi_protect_in.Table.{count-key, find-update_key, IsUnique}
use square_uni_fi_protect_in.Schema.{TransactionRow, Db, find_tx, tx_key, is_sent}
use square_uni_fi_protect_in.Store.Ingest.{merge_row, silence}
use square_uni_fi_protect_in.Store.Retries.{attach, detach}
use square_uni_fi_protect_in.Store.Alarms.{
  claim, claim_alarm_trigger, unclaim, deliver, is_held_by, mark_alarm_sent,
}
use square_uni_fi_protect_in.Store.Alarms.Claims.{claim_granted}
use square_uni_fi_protect_in.Store.Evidence.{forget_camera, expire, account, remeasure}
use square_uni_fi_protect_in.Store.Queue.{IsConsistent}
use square_uni_fi_protect_in.Store.Steps.{Call, marks_sent, step, run}
use square_uni_fi_protect_in.Store.Steps.Consistency.{step-IsConsistent, run-IsConsistent}
use square_uni_fi_protect_in.Store.Steps.Stability.{IsStable}
use square_uni_fi_protect_in.Store.Steps.Stability.Calls.{keeps_account, run_kept}

abbrev pub was_sent : TransactionRow → Bool
was_sent t = is_sent t.alarm_state

pub was_sent-IsStable : IsStable was_sent
unfolding merge_row silence unclaim claim deliver attach detach forget_camera expire account
    remeasure
was_sent-IsStable = record {
  on_merge = λ x t e h. h;
  on_silence = λ t h. refl;
  on_unclaim = λ t e h. ground (arith, e, h);
  on_claim = λ token at t e h. ground (arith, e, h);
  on_deliver = λ token at_ms t e h. refl;
  on_camera = λ camera t h. h;
  on_attach = λ filename bytes revision t h. h;
  on_detach = λ t h. h;
  on_forget = λ t h. h;
  on_expire = λ now_ms reason t h. h;
  on_account = λ size t h. h;
  on_remeasure = λ bytes revision t h. h;
  on_note = λ note revision t h. h;
}

-- The stored version of the payment is at least as new as `v`.
abbrev pub is_as_new_as : ℤ → TransactionRow → Bool
is_as_new_as v t = leb_ℤ v t.updated_ts_ms

is_as_new_as-IsStable : (v : ℤ) → IsStable (is_as_new_as v)
unfolding merge_row silence unclaim claim deliver attach detach forget_camera expire account
    remeasure
is_as_new_as-IsStable v = record {
  on_merge = λ x t e h. ground (arith, e, h);
  on_silence = λ t h. h;
  on_unclaim = λ t e h. h;
  on_claim = λ token at t e h. h;
  on_deliver = λ token at_ms t e h. h;
  on_camera = λ camera t h. h;
  on_attach = λ filename bytes revision t h. h;
  on_detach = λ t h. h;
  on_forget = λ t h. h;
  on_expire = λ now_ms reason t h. h;
  on_account = λ size t h. h;
  on_remeasure = λ bytes revision t h. h;
  on_note = λ note revision t h. h;
}

-- At least `v` was refunded.
abbrev pub has_refunded : ℤ → TransactionRow → Bool
has_refunded v t = leb_ℤ v t.refunded_amount

has_refunded-IsStable : (v : ℤ) → IsStable (has_refunded v)
unfolding merge_row silence unclaim claim deliver attach detach forget_camera expire account
    remeasure max_ℤ
has_refunded-IsStable v = record {
  on_merge = λ x t e h. ground (arith, h);
  on_silence = λ t h. h;
  on_unclaim = λ t e h. h;
  on_claim = λ token at t e h. h;
  on_deliver = λ token at_ms t e h. h;
  on_camera = λ camera t h. h;
  on_attach = λ filename bytes revision t h. h;
  on_detach = λ t h. h;
  on_forget = λ t h. h;
  on_expire = λ now_ms reason t h. h;
  on_account = λ size t h. h;
  on_remeasure = λ bytes revision t h. h;
  on_note = λ note revision t h. h;
}

-- Neither the update time nor the refunded amount of a stored payment ever decreases, and the
-- payment stays stored, whatever calls follow, as long as none of them switches the Square
-- account.
pub run_monotone :
    (calls : List Call) (db : Db) (id : String) (t : TransactionRow)
    → All (λ c. keeps_account c ≡ true) calls
    → find_tx id db ≡ some t
    → (is_some_and (find_tx id (run calls db)) (is_as_new_as t.updated_ts_ms) ≡ true)
      × (is_some_and (find_tx id (run calls db)) (has_refunded t.refunded_amount) ≡ true)
run_monotone calls db id t keep e = (
  run_kept (is_as_new_as t.updated_ts_ms) (is_as_new_as-IsStable t.updated_ts_ms) id calls db keep
      (ground (arith, e)),
  run_kept (has_refunded t.refunded_amount) (has_refunded-IsStable t.refunded_amount) id calls db
      keep (ground (arith, e)),
)

pub mark_alarm_sent-was_sent :
    (id token : String) (at_ms : ℤ) (db : Db)
    → IsUnique tx_key db.transactions
    → (mark_alarm_sent id token at_ms db).0 ≡ true
    → is_some_and (find_tx id (mark_alarm_sent id token at_ms db).1) was_sent ≡ true
unfolding mark_alarm_sent
mark_alarm_sent-was_sent id token at_ms db u h =
    unfold deliver in
    ground (
      arith,
      h,
      count-key tx_key id (is_held_by token) db.transactions u,
      find-update_key tx_key id (is_held_by token) (deliver at_ms) id db.transactions
          (λ t. unfold deliver in refl),
      str_eq_refl id,
    )

pub sent_refuses_claim :
    (id token : String) (now at : ℕ) (db : Db)
    → IsUnique tx_key db.transactions
    → is_some_and (find_tx id db) was_sent ≡ true
    → (claim_alarm_trigger id token now at db).0 ≡ none
sent_refuses_claim id token now at db u h = elim (Option-cases (find_tx id db)) [
  | inl e ↦ ground (arith, e, h)
  | inr (t, e) ↦ ground (arith, e, h, claim_granted id token now at db u)
]

-- From a consistent database on, once a delivery is acknowledged, no later claim on its
-- transaction is granted, whatever calls come in between, as long as none of them switches the
-- Square account: the alarm is not triggered again.
pub acknowledged_once :
    (id token other : String) (at_ms : ℤ) (now at : ℕ) (calls : List Call) (db : Db)
    → IsConsistent db
    → All (λ c. keeps_account c ≡ true) calls
    → (mark_alarm_sent id token at_ms db).0 ≡ true
    → (claim_alarm_trigger id other now at (run calls (mark_alarm_sent id token at_ms db).1)).0
      ≡ none
acknowledged_once id token other at_ms now at calls db q keep h =
    let marked = (mark_alarm_sent id token at_ms db).1 in
    let q' : IsConsistent marked =
      unfold step in step-IsConsistent (marks_sent id token at_ms) db q in
    sent_refuses_claim id other now at (run calls marked)
      (run-IsConsistent calls marked q').tx_unique
      (run_kept was_sent was_sent-IsStable id calls marked keep
        (mark_alarm_sent-was_sent id token at_ms db q.tx_unique h))
