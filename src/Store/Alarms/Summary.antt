-- ===== src/Store/Alarms/Summary.antt =====
-- src/store.rs, `queue_depths` and `alarm_summary`: the numbers for the web page. Both release the expired
-- claims first, and keep that if they fail later.
use square_uni_fi_protect_in.Common.{
  ℕ, ◌≡◌, refl, Bool, not, ◌&&◌, Option, none, some, List, [], ◌∷◌, String, ℤ, max_ℤ, length,
  is_some, upper_is, str_is_empty, unwrap_or, AppResult, ok, ◌>>=◌, Bool-cases, inl, inr, arith,
}
use square_uni_fi_protect_in.Table.{count_where, select_where}
use square_uni_fi_protect_in.Schema.{TransactionRow, Db, is_in_progress}
use square_uni_fi_protect_in.Store.Settings.{Cipher, setting_value}
use square_uni_fi_protect_in.Store.Alarms.{release_expired, is_pending}

pub record QueueDepths : Type 0 where
  pub thumbnails_pending : ℕ
  pub alarms_pending : ℕ

unfoldable pub queue_depths : ℕ → Db → QueueDepths × Db
queue_depths now db =
    let rows = release_expired now db.transactions in
    (
      record {
        thumbnails_pending = length db.retries;
        alarms_pending = count_where is_pending rows;
      },
      record db { transactions = rows },
    )

pub record AlarmSummary : Type 0 where
  pub configured : Bool
  pub trigger_id : String
  pub pending : ℕ
  pub in_progress : ℕ
  pub delivered : ℕ
  pub last_delivered_at_ms : Option ℤ

-- MAX(alarm_delivered_at_ms).
unfoldable pub last_delivery : List TransactionRow → Option ℤ
last_delivery [] = none
last_delivery (t ∷ rows) =
    let rest = last_delivery rows in
    elim t.alarm_delivered_at_ms [
      | none ↦ rest
      | some at ↦ some (elim rest [ none ↦ at | some later ↦ max_ℤ at later ])
    ]

unfoldable pub alarm_summary : Cipher → ℕ → Db → AppResult AlarmSummary × Db
alarm_summary cipher now db =
    let rows = release_expired now db.transactions in
    (
      setting_value cipher db.settings "protect.alarm_trigger_id" >>= λ trigger. ok (record {
        configured = not (str_is_empty (unwrap_or trigger ""));
        trigger_id = unwrap_or trigger "";
        pending = count_where is_pending rows;
        in_progress =
            count_where
              (λ (t : TransactionRow).
                upper_is t.status "COMPLETED" && is_in_progress t.alarm_state)
              rows;
        delivered = count_where (λ (t : TransactionRow). is_some t.alarm_delivered_at_ms) rows;
        last_delivered_at_ms = last_delivery rows;
      }),
      record db { transactions = rows },
    )

-- The depth of the queue is the number of alarms that could be claimed.
pub count-select :
    (p : TransactionRow → Bool) (rows : List TransactionRow)
    → length (select_where p rows) ≡ count_where p rows
unfolding select_where count_where
count-select p [] = refl
count-select p (t ∷ rows) = elim (Bool-cases (p t)) [
  | inl e ↦ ground (arith, e, count-select p rows)
  | inr e ↦ ground (arith, e, count-select p rows)
]
