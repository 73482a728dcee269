-- ===== src/Examples/Alarms.antt =====
-- The theorems on alarm claims, applied to the sale of `Data`.
use square_uni_fi_protect_in.Common.{
  ◌≡◌, refl, [], ◌∷◌, some, none, true, is_some_and, pos, if◌then◌else◌, arith, str_eq, upper_is,
}
use square_uni_fi_protect_in.Table.{find, update_where, count_where}
use square_uni_fi_protect_in.Schema.{Db, find_tx}
use square_uni_fi_protect_in.Store.Steps
use square_uni_fi_protect_in.Store.Steps.Facts.{acknowledged_once}
use square_uni_fi_protect_in.Store.Steps.Consistency.{step-IsConsistent}
use square_uni_fi_protect_in.Store.Alarms.{
  is_pending, claim_alarm_trigger, mark_alarm_sent, release_expired, claim,
}
use square_uni_fi_protect_in.Store.Alarms.Claims.{claim_exclusive, claim_granted, released}
use square_uni_fi_protect_in.Store.Queue.{IsConsistent}
use square_uni_fi_protect_in.Examples.Data.{busy, busy-IsConsistent}

claim_granted_example : (claim_alarm_trigger "pay_1" "a" 5 6 busy).0 ≡ (
    if is_some_and (find_tx "pay_1" busy) (λ t. is_pending (released 5 t)) then some "a" else none)
unfolding find str_eq
claim_granted_example = claim_granted "pay_1" "a" 5 6 busy (refl, tt)

first_claim : (claim_alarm_trigger "pay_1" "a" 5 6 busy).0 ≡ some "a"
unfolding claim_alarm_trigger release_expired update_where count_where str_eq upper_is
first_claim = refl

claim_exclusive_example :
    (claim_alarm_trigger "pay_1" "b" 7 8 (claim_alarm_trigger "pay_1" "a" 5 6 busy).1).0 ≡ none
unfolding find str_eq
claim_exclusive_example =
    claim_exclusive "pay_1" "a" "b" 5 6 7 8 busy (refl, tt) first_claim (omega arith)

-- The database in which the first claim holds.
abbrev claimed : Db
claimed = (claim_alarm_trigger "pay_1" "a" 5 6 busy).1

claimed-IsConsistent : IsConsistent claimed
claimed-IsConsistent =
    unfold Steps.step in
    step-IsConsistent (Steps.claims_alarm "pay_1" "a" 5 6) busy busy-IsConsistent

first_delivery : (mark_alarm_sent "pay_1" "a" (pos 3000) claimed).0 ≡ true
unfolding mark_alarm_sent claim_alarm_trigger release_expired update_where count_where claim str_eq
    upper_is
first_delivery = refl

acknowledged_once_example :
    (claim_alarm_trigger "pay_1" "b" 900 901 (
      Steps.run
        (Steps.suppresses_alarms ∷ Steps.clears_protect ∷ [])
        (mark_alarm_sent "pay_1" "a" (pos 3000) claimed).1)).0
    ≡ none
acknowledged_once_example =
    acknowledged_once "pay_1" "a" "b" (pos 3000) 900 901
      (Steps.suppresses_alarms ∷ Steps.clears_protect ∷ []) claimed claimed-IsConsistent
      (refl, (refl, tt)) first_delivery
