-- ===== src/Examples/Deliveries.antt =====
-- The theorems on the drain of alarms and on watermarks, applied to the sale of `Data`.
use square_uni_fi_protect_in.Common.{
  ℕ, ◌≡◌, refl, true, false, none, some, List, [], ◌∷◌, String, pos, max_ℤ, arith, any, str_eq,
  is_some_and, ok, if◌then◌else◌,
}
use square_uni_fi_protect_in.Table.{find}
use square_uni_fi_protect_in.Schema
use square_uni_fi_protect_in.Schema.{find_tx}
use square_uni_fi_protect_in.Store.Queue.{IsConsistent}
use square_uni_fi_protect_in.Store.Settings.{Cipher}
use square_uni_fi_protect_in.Store.Steps.Facts.{was_sent}
use square_uni_fi_protect_in.Store.Watermarks.{
  square_poll_watermark, advance_square_poll_watermark, watermark_exact,
}
use square_uni_fi_protect_in.Sync.{AlarmRound, drain_alarms}
use square_uni_fi_protect_in.Sync.Deliveries.{drain_spares_acknowledged}
use square_uni_fi_protect_in.Examples.Data.{busy, sale_row}

-- Stands for the cipher.
abbrev clear : Cipher
clear = record { encrypt = λ v. v; decrypt = λ v. ok v }

-- The sale, whose alarm was acknowledged.
abbrev delivered : Schema.Db
delivered = record busy {
  settings = record { key = "protect.alarm_trigger_id"; value = "a1"; encrypted = false } ∷ [];
  transactions = record sale_row { alarm_state = Schema.sent } ∷ [];
}

delivered-IsConsistent : IsConsistent delivered
unfolding find
delivered-IsConsistent = record {
  tx_unique = (refl, tt);
  retry_unique = (refl, tt);
  exact = λ k. ground arith;
}

abbrev rounds : ℕ → AlarmRound
rounds n = record {
  listed_at = n;
  tries =
      λ id. record { token = id; now = n; claimed_at = n; answer = ok tt; delivered_at_ms = pos n };
}

drain_spares_acknowledged_example :
    (any (λ k. str_eq k "pay_1") (drain_alarms clear 20 rounds delivered).0 ≡ false)
    × IsConsistent (drain_alarms clear 20 rounds delivered).1
    × (is_some_and (find_tx "pay_1" (drain_alarms clear 20 rounds delivered).1) was_sent ≡ true)
unfolding find str_eq
drain_spares_acknowledged_example =
    drain_spares_acknowledged clear "pay_1" 20 rounds delivered delivered-IsConsistent refl

watermark_exact_example :
    (rows' : List Schema.WatermarkRow) × (advance_square_poll_watermark "L1" (pos 9) [] ≡ ok rows')
    × ((k : String)
        → square_poll_watermark k rows' ≡ (
            if str_eq k "L1"
            then some (elim (square_poll_watermark "L1" []) [
              | none ↦ pos 9
              | some through ↦ max_ℤ through (pos 9)
            ])
            else square_poll_watermark k []))
watermark_exact_example = watermark_exact "L1" (pos 9) [] refl
