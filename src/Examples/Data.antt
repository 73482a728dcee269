-- ===== src/Examples/Data.antt =====
-- A payment, the database after its ingestion, and a queue entry with a lease.
use square_uni_fi_protect_in.Common.{refl, [], ◌∷◌, some, none, false, pos, str_eq, arith}
use square_uni_fi_protect_in.Table.{find}
use square_uni_fi_protect_in.Schema
use square_uni_fi_protect_in.Store.Queue.{IsConsistent}

abbrev pub sale : Schema.PaymentFacts
sale = record {
  id = "pay_1";
  created_at = "2026-01-01T00:00:00Z";
  ts_ms = pos 2000;
  updated_at = "2026-01-01T00:00:00Z";
  updated_ts_ms = pos 2000;
  amount = pos 1250;
  currency = "USD";
  refunded_amount = pos 0;
  status = "COMPLETED";
  location_id = "L1";
  device_id = "D1";
  device_name = "Till";
  card_last4 = "4242";
  receipt_url = "";
}

abbrev pub till : Schema.CameraMappingEntry
till = record {
  location_id = "L1";
  device_id = "D1";
  device_name = "Till";
  camera_id = "cam1aaaaaaaaaaaaaaaaaaaaa";
  camera_name = "Till camera";
}

abbrev pub sale_row : Schema.TransactionRow
sale_row = record {
  id = "pay_1";
  created_at = "2026-01-01T00:00:00Z";
  ts_ms = pos 2000;
  updated_at = "2026-01-01T00:00:00Z";
  updated_ts_ms = pos 2000;
  amount = pos 1250;
  currency = "USD";
  refunded_amount = pos 0;
  status = "COMPLETED";
  location_id = "L1";
  device_id = "D1";
  device_name = "Till";
  card_last4 = "4242";
  receipt_url = "";
  camera_id = some "cam1aaaaaaaaaaaaaaaaaaaaa";
  thumbnail_path = none;
  note = "";
  note_revision = pos 0;
  thumbnail_bytes = none;
  thumbnail_policy_revision = pos 0;
  thumbnail_retired_at = none;
  thumbnail_retired_reason = "";
  alarm_state = Schema.idle;
  alarm_claim_token = none;
  alarm_claimed_at = none;
  alarm_delivered_at_ms = none;
}

abbrev pub leased : Schema.RetryRow
leased = record {
  transaction_id = "pay_1";
  attempts = 0;
  next_attempt_at = 0;
  lease_token = some "worker";
  lease_expires_at = some 60000000;
  last_error = "";
}

abbrev pub empty : Schema.Db
empty = record {
  settings =
      record { key = "protect.alarm_enabled_after_ms"; value = "1000"; encrypted = false } ∷ [];
  camera_map = till ∷ [];
  transactions = [];
  retries = [];
  evidence_retired = [];
  watermarks = [];
  order_revision = 0;
  snapshots = [];
  snapshot_sequence = 0;
  order_history = [];
  receipts = [];
  motion_events = [];
  files = [];
}

-- The sale is stored, and a worker holds the lease on its queue entry.
abbrev pub busy : Schema.Db
busy = record empty { transactions = sale_row ∷ []; retries = leased ∷ [] }

pub empty-IsConsistent : IsConsistent empty
unfolding find str_eq
empty-IsConsistent = record { tx_unique = tt; retry_unique = tt; exact = λ k. refl }

pub busy-IsConsistent : IsConsistent busy
unfolding find str_eq
busy-IsConsistent = record {
  tx_unique = (refl, tt);
  retry_unique = (refl, tt);
  exact = λ k. ground arith;
}
