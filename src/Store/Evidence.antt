-- ===== src/Store/Evidence.antt =====
-- src/store.rs, the operations that replace or drop camera evidence as a whole: `replace_camera_mappings`,
-- `clear_protect_evidence_under_guard`, `clear_square_account_data_under_guard`, `retire_thumbnail`,
-- `reconcile_missing_thumbnails` and `update_thumbnail_metadata`. Operations on files succeed here.
pub mod Switches
pub mod Mappings
pub mod Retirement
pub mod Reconciliation
pub mod Metadata
use mathlib.Core.Option
use square_uni_fi_protect_in.Common.{
  ℕ, ◌+◌, Bool, true, not, ◌&&◌, ◌||◌, Option, none, some, List, [], ◌∷◌, ◌++◌, String, ℤ, pos,
  max_ℤ, ltb, ◌==◌, if◌then◌else◌, str_eq, opt_eq, opt_is, is_none, any, map, length, upper_is,
  AppResult, ok, is_negative, eqb_ℤ, unprocessable, bad_request, refuse_if, ◌>>=◌, ◌>>◌,
}
use square_uni_fi_protect_in.Table.{update_where, select_where, count_where}
use square_uni_fi_protect_in.Schema.{
  CameraMappingEntry, TransactionRow, RetryRow, Db, is_sent, is_runnable,
}
use square_uni_fi_protect_in.Store.Guards.{validate_mapping, is_local_filename}
use square_uni_fi_protect_in.Store.Settings.{write_plain_setting, delete_settings}
use square_uni_fi_protect_in.Store.Ingest.{silence, delete_if_unreferenced}
use square_uni_fi_protect_in.Store.RetryRows.{enqueue_if_absent, dequeue}
use square_uni_fi_protect_in.Store.Retries.{retarget, detach}
use square_uni_fi_protect_in.Store.Cameras.{camera_for_location}

-- Every mapping is valid, and no register is mapped twice; `seen` holds the mappings before.
unfoldable pub check_mappings :
    List CameraMappingEntry → List CameraMappingEntry → AppResult (Unit {0})
check_mappings seen [] = ok tt
check_mappings seen (m ∷ rest) = do
  validate_mapping m
  refuse_if (any (λ s. str_eq s.location_id m.location_id && str_eq s.device_id m.device_id) seen)
      unprocessable
  check_mappings (m ∷ seen) rest

-- The transactions whose thumbnail is neither captured, nor retired by policy, nor retired with the console.
unfoldable pub is_remappable : List String → TransactionRow → Bool
is_remappable retired t =
    is_none t.thumbnail_path
    && (is_none t.thumbnail_retired_at && not (any (λ id. str_eq id t.id) retired))

-- One round of the loop over the pending transactions, with the row as it was selected.
unfoldable pub remap_transaction : TransactionRow → Db → Db
remap_transaction t db =
    let camera =
      Option.map (λ m. m.camera_id) (camera_for_location db.camera_map t.location_id t.device_id) in
    if opt_eq camera t.camera_id then db else retarget t.id camera db

unfoldable pub remap_all : List TransactionRow → Db → Db
remap_all [] db = db
remap_all (t ∷ rest) db = remap_all rest (remap_transaction t db)

unfoldable pub replace_camera_mappings : List CameraMappingEntry → Db → AppResult (Unit {0} × Db)
replace_camera_mappings mappings db = do
  refuse_if (ltb 500 (length mappings)) unprocessable
  check_mappings [] mappings
  ok (
    tt,
    remap_all (select_where (is_remappable db.evidence_retired) db.transactions)
        (record db { camera_map = mappings }),
  )

-- INSERT OR IGNORE INTO protect_evidence_retired SELECT id FROM transactions.
unfoldable pub retire_evidence : List TransactionRow → List String → List String
retire_evidence [] retired = retired
retire_evidence (t ∷ rows) retired =
    retire_evidence rows
      (if any (λ id. str_eq id t.id) retired then retired else retired ++ t.id ∷ [])

unfoldable pub forget_camera : TransactionRow → TransactionRow
forget_camera t = record t {
  camera_id = none;
  thumbnail_path = none;
  thumbnail_bytes = none;
  thumbnail_policy_revision = pos 0;
}

-- The cleanup mark is set and, once the files are gone, deleted again.
unfoldable pub clear_protect_evidence : Db → Db
clear_protect_evidence db = record db {
  evidence_retired = retire_evidence db.transactions db.evidence_retired;
  camera_map = [];
  retries = [];
  transactions =
      update_where (λ t. upper_is t.status "COMPLETED" && not (is_sent t.alarm_state)) silence
        (update_where (λ t. true) forget_camera db.transactions);
  motion_events = [];
  files = [];
  settings =
      delete_settings ("maintenance.orphan_thumbnail_cleanup_pending" ∷ [])
        (write_plain_setting "maintenance.orphan_thumbnail_cleanup_pending" (pos 1) db.settings);
}

-- Deleting the transactions takes their queue entries and retirement marks along, and the trigger
-- `invalidate_transaction_feed_after_delete` counts every deleted row.
unfoldable pub clear_square_account_data : Db → Db
clear_square_account_data db = record db {
  transactions = [];
  retries = [];
  evidence_retired = [];
  camera_map = [];
  watermarks = [];
  receipts = [];
  snapshots = [];
  order_history = [];
  order_revision = db.order_revision + length db.transactions;
  files = [];
  settings =
      delete_settings ("maintenance.orphan_thumbnail_cleanup_pending" ∷ [])
        (write_plain_setting "maintenance.orphan_thumbnail_cleanup_pending" (pos 1) db.settings);
}

-- `thumbnail_path=? AND thumbnail_retired_at IS NULL`.
abbrev pub is_stored_at : String → TransactionRow → Bool
is_stored_at path t = opt_is t.thumbnail_path path && is_none t.thumbnail_retired_at

unfoldable pub expire : ℤ → String → TransactionRow → TransactionRow
expire now_ms reason t = record t {
  thumbnail_path = none;
  thumbnail_bytes = none;
  thumbnail_policy_revision = pos 0;
  thumbnail_retired_at = some (max_ℤ now_ms (pos 0));
  thumbnail_retired_reason = reason;
}

pub data RetirementOutcome : Type 0 where
  retired skipped policy_changed : RetirementOutcome

-- `same_policy` tells whether the policy read under the lock is the one expected.
unfoldable pub retire_thumbnail :
    String → String → Bool → ℤ → String → Db → AppResult (RetirementOutcome × Db)
retire_thumbnail id path same_policy now_ms reason db = do
  refuse_if (not (str_eq reason "age" || str_eq reason "quota")) bad_request
  let p = λ (t : TransactionRow). str_eq t.id id && is_stored_at path t
  let rows = update_where p (expire now_ms reason) db.transactions
  (if not same_policy
      then ok (policy_changed, db)
      else if not (count_where p db.transactions == 1)
      then ok (skipped, record db { transactions = rows })
      else ok (
        retired,
        record db {
          transactions = rows;
          retries = dequeue id db.retries;
          settings =
              write_plain_setting "maintenance.orphan_thumbnail_cleanup_pending" (pos 1)
                db.settings;
          files = delete_if_unreferenced (some path) rows db.files;
        },
      ))

-- A file that the directory holds, under a local name.
unfoldable pub has_file : List String → TransactionRow → Bool
has_file files t = elim t.thumbnail_path [
  | none ↦ true
  | some path ↦ is_local_filename path && any (λ name. str_eq name path) files
]

-- INSERT OR IGNORE INTO thumbnail_retries SELECT id FROM transactions WHERE the thumbnail is wanted.
unfoldable pub enqueue_runnable : List TransactionRow → List RetryRow → List RetryRow
enqueue_runnable [] retries = retries
enqueue_runnable (t ∷ rows) retries =
    enqueue_runnable rows (if is_runnable t then enqueue_if_absent t.id retries else retries)

-- SET thumbnail_bytes=COALESCE(thumbnail_bytes, ?), where the row has a file.
unfoldable pub account : (String → ℤ) → TransactionRow → TransactionRow
account size t = record t {
  thumbnail_bytes = elim t.thumbnail_path [
    | none ↦ t.thumbnail_bytes
    | some path ↦ elim t.thumbnail_bytes [ none ↦ some (size path) | some n ↦ some n ]
  ];
}

-- The start of the service: `size` gives the bytes of a file.
unfoldable pub reconcile_missing_thumbnails : (String → ℤ) → Db → Db
reconcile_missing_thumbnails size db =
    let rows =
      update_where (λ t. not (has_file db.files t)) detach
        (update_where (has_file db.files) (account size) db.transactions) in
    record db { transactions = rows; retries = enqueue_runnable rows db.retries }

-- SET thumbnail_bytes = ?, thumbnail_policy_revision = ?.
unfoldable pub remeasure : ℤ → ℤ → TransactionRow → TransactionRow
remeasure bytes revision t = record t {
  thumbnail_bytes = some bytes;
  thumbnail_policy_revision = revision;
}

-- The maintenance has compressed a stored file again: `expected` is the revision that it found.
unfoldable pub update_thumbnail_metadata : String → String → ℤ → ℤ → ℤ → Db → AppResult (Bool × Db)
update_thumbnail_metadata id path expected bytes revision db = do
  refuse_if (is_negative bytes || is_negative revision) unprocessable
  let p = λ (t : TransactionRow).
      str_eq t.id id && (is_stored_at path t && eqb_ℤ t.thumbnail_policy_revision expected)
  ok (
    count_where p db.transactions == 1,
    record db { transactions = update_where p (remeasure bytes revision) db.transactions },
  )
