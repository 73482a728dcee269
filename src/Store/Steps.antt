-- ===== src/Store/Steps.antt =====
-- src/store.rs as a whole: any sequence of calls on the tables of transactions and thumbnails. The
-- connection is behind a mutex, so the calls of all threads form one sequence.
pub mod Consistency
pub mod Stability
pub mod Facts
use square_uni_fi_protect_in.Common.{ℕ, Bool, List, [], ◌∷◌, String, ℤ}
use square_uni_fi_protect_in.Schema.{CameraMappingEntry, PaymentFacts, Db, after}
use square_uni_fi_protect_in.Store.Ingest.{upsert_payment}
use square_uni_fi_protect_in.Store.Retries.{
  claim_due_thumbnail_retries, complete_thumbnail_retry, fail_thumbnail_retry,
  requeue_missing_thumbnail,
}
use square_uni_fi_protect_in.Store.Alarms.{
  pending_alarm_ids, claim_alarm_trigger, mark_alarm_sent, release_alarm_claim,
  suppress_pending_alarms,
}
use square_uni_fi_protect_in.Store.Notes.{set_transaction_note}
use square_uni_fi_protect_in.Store.Evidence.{
  replace_camera_mappings, clear_protect_evidence, clear_square_account_data, retire_thumbnail,
  reconcile_missing_thumbnails, update_thumbnail_metadata,
}

-- A call of the store with its arguments, clock readings and random tokens.
pub data Call : Type 0 where
  upserts : PaymentFacts → Call
  claims_thumbnails : ℤ → ℕ → String → Call
  completes : String → String → String → ℤ → String → ℤ → ℤ → Call
  fails : String → String → String → ℤ → String → ℕ → Call
  requeues_missing : String → String → Call
  lists_pending : ℤ → ℕ → Call
  claims_alarm : String → String → ℕ → ℕ → Call
  marks_sent : String → String → ℤ → Call
  releases_claim : String → String → Call
  suppresses_alarms : Call
  writes_note : String → String → ℤ → Call
  replaces_mappings : List CameraMappingEntry → Call
  retires : String → String → Bool → ℤ → String → Call
  reconciles : (String → ℤ) → Call
  remeasures : String → String → ℤ → ℤ → ℤ → Call
  clears_protect : Call
  clears_square : Call

unfoldable pub step : Call → Db → Db
step (upserts payment) db = after db (upsert_payment payment db)
step (claims_thumbnails limit now token) db = (claim_due_thumbnail_retries limit now token db).1
step (completes id token camera ts filename bytes revision) db =
    after db (complete_thumbnail_retry id token camera ts filename bytes revision db)
step (fails id token camera ts error now) db =
    (fail_thumbnail_retry id token camera ts error now db).1
step (requeues_missing id path) db = (requeue_missing_thumbnail id path db).1
step (lists_pending limit now) db = (pending_alarm_ids limit now db).1
step (claims_alarm id token now at) db = (claim_alarm_trigger id token now at db).1
step (marks_sent id token at_ms) db = (mark_alarm_sent id token at_ms db).1
step (releases_claim id token) db = (release_alarm_claim id token db).1
step suppresses_alarms db = suppress_pending_alarms db
step (writes_note id note revision) db = after db (set_transaction_note id note revision db)
step (replaces_mappings mappings) db = after db (replace_camera_mappings mappings db)
step (retires id path same_policy now_ms reason) db =
    after db (retire_thumbnail id path same_policy now_ms reason db)
step (reconciles size) db = reconcile_missing_thumbnails size db
step (remeasures id path expected bytes revision) db =
    after db (update_thumbnail_metadata id path expected bytes revision db)
step clears_protect db = clear_protect_evidence db
step clears_square db = clear_square_account_data db

unfoldable pub run : List Call → Db → Db
run [] db = db
run (c ∷ calls) db = run calls (step c db)
