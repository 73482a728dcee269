-- ===== src/Store/Steps/Stability/Calls.antt =====
-- A stable test is kept by the calls on alarms, notes and evidence, and so by any sequence of calls.
use mathlib.Core.Option
use square_uni_fi_protect_in.Common.{
  ℕ, ◌≡◌, refl, Bool, true, false, not, ◌&&◌, ◌||◌, ◌==◌, Option, none, some, List, [], ◌∷◌, String,
  ℤ, if◌then◌else◌, upper_is, arith, AppResult, ok, err, ◌>>◌, is_negative, unprocessable,
  refuse_if, Bool-cases, inl, inr, eqb_ℤ, str_eq, is_some_and, opt_eq, All,
}
use square_uni_fi_protect_in.Table.{update_where, count_where, select_where}
use square_uni_fi_protect_in.Schema.{
  CameraMappingEntry, TransactionRow, Db, find_tx, is_sent, after,
}
use square_uni_fi_protect_in.Store.Ingest.{silence}
use square_uni_fi_protect_in.Store.Guards.{validate_note}
use square_uni_fi_protect_in.Store.Cameras.{camera_for_location}
use square_uni_fi_protect_in.Store.Retries.{detach, retarget, claim_due_thumbnail_retries}
use square_uni_fi_protect_in.Store.Alarms.{
  release_expired, is_expired_claim, is_pending, claim, claim_alarm_trigger, unclaim, is_held_by,
  deliver, pending_alarm_ids, mark_alarm_sent, release_alarm_claim, suppress_pending_alarms,
}
use square_uni_fi_protect_in.Store.Notes.{write_note, edit_note, set_transaction_note}
use square_uni_fi_protect_in.Store.Evidence.{
  check_mappings, is_remappable, remap_transaction, remap_all, replace_camera_mappings,
  forget_camera, clear_protect_evidence, is_stored_at, expire, retire_thumbnail, has_file, account,
  reconcile_missing_thumbnails, remeasure, update_thumbnail_metadata,
}
use square_uni_fi_protect_in.Store.Steps.{
  Call, upserts, claims_thumbnails, completes, fails, requeues_missing, lists_pending, claims_alarm,
  marks_sent, releases_claim, suppresses_alarms, writes_note, replaces_mappings, retires,
  reconciles, remeasures, clears_protect, clears_square, step, run,
}
use square_uni_fi_protect_in.Store.Steps.Stability.{IsStable}
use square_uni_fi_protect_in.Store.Steps.Stability.Kept.{
  Holds, kept, upsert_payment_kept, complete_kept, fail_kept, retarget_kept, requeue_missing_kept,
}

-- The call does not switch the Square account, which deletes every transaction.
abbrev pub keeps_account : Call → Bool
keeps_account clears_square = false
keeps_account _ = true

module _ (P : TransactionRow → Bool) (stable : IsStable P) (id : String) where
  release_expired_kept :
      (now : ℕ) (db : Db)
      → Holds P stable id db
      → Holds P stable id (record db { transactions = release_expired now db.transactions })
  unfolding release_expired
  release_expired_kept now db h =
      kept P stable id (is_expired_claim now) unclaim db.transactions (λ t. unfold unclaim in refl)
        (λ t e. stable.on_unclaim t (ground arith)) h

  claim_alarm_kept :
      (k token : String) (now at : ℕ) (db : Db)
      → Holds P stable id db
      → Holds P stable id (claim_alarm_trigger k token now at db).1
  unfolding claim_alarm_trigger
  claim_alarm_kept k token now at db h =
      kept P stable id (λ t. str_eq t.id k && is_pending t) (claim token at)
        (release_expired now db.transactions) (λ t. unfold claim in refl)
        (λ t e. stable.on_claim token at t (ground arith)) (release_expired_kept now db h)

  mark_sent_kept :
      (k token : String) (at_ms : ℤ) (db : Db)
      → Holds P stable id db
      → Holds P stable id (mark_alarm_sent k token at_ms db).1
  unfolding mark_alarm_sent
  mark_sent_kept k token at_ms db h =
      kept P stable id (λ t. str_eq t.id k && is_held_by token t) (deliver at_ms) db.transactions
        (λ t. unfold deliver in refl) (λ t e. stable.on_deliver token at_ms t (ground arith)) h

  release_claim_kept :
      (k token : String) (db : Db)
      → Holds P stable id db
      → Holds P stable id (release_alarm_claim k token db).1
  unfolding release_alarm_claim
  release_claim_kept k token db h =
      kept P stable id (λ t. str_eq t.id k && is_held_by token t) unclaim db.transactions
        (λ t. unfold unclaim in refl) (λ t e. stable.on_unclaim t (ground arith)) h

  write_note_kept :
      (k note : String) (revision : ℤ) (db : Db)
      → Holds P stable id db
      → Holds P stable id (write_note k note revision db)
  unfolding write_note
  write_note_kept k note revision db h =
      kept P stable id (λ t. str_eq t.id k)
        (λ t. record t { note = note; note_revision = revision }) db.transactions (λ t. refl)
        (λ t _. stable.on_note note revision t) h

  edit_note_kept :
      (k note : String) (expected : ℤ) (db : Db) (found : Option TransactionRow)
      → Holds P stable id db
      → Holds P stable id (after db (edit_note k note expected db found))
  unfolding edit_note
  edit_note_kept k note expected db none h = h
  edit_note_kept k note expected db (some t) h =
      elim (Bool-cases (not (eqb_ℤ t.note_revision expected))) [
        | inl e ↦ rw e h
        | inr e ↦ rw e (elim (Bool-cases (str_eq t.note note)) [
          | inl s ↦ rw s h
          | inr s ↦ rw s (write_note_kept k note _ db h)
        ])
      ]

  set_note_kept :
      (k note : String) (expected : ℤ) (db : Db)
      → Holds P stable id db
      → Holds P stable id (after db (set_transaction_note k note expected db))
  unfolding set_transaction_note
  set_note_kept k note expected db h =
      go (validate_note note) (refuse_if (is_negative expected) unprocessable)
    where
      go :
          (u v : AppResult (Unit {0}))
          → Holds P stable id (after db (u >> (v >> edit_note k note expected db (find_tx k db))))
      go (err e) v = h
      go (ok a) (err e) = h
      go (ok a) (ok b) = edit_note_kept k note expected db (find_tx k db) h

  remap_transaction_kept :
      (t : TransactionRow) (db : Db)
      → Holds P stable id db
      → Holds P stable id (remap_transaction t db)
  unfolding remap_transaction
  remap_transaction_kept t db h =
      go (
        Option.map (λ m. m.camera_id) (camera_for_location db.camera_map t.location_id t.device_id))
    where
      go :
          (camera : Option String)
          → Holds P stable id (if opt_eq camera t.camera_id then db else retarget t.id camera db)
      go camera = elim (Bool-cases (opt_eq camera t.camera_id)) [
        | inl e ↦ rw e h
        | inr e ↦ rw e (retarget_kept P stable id t.id camera db h)
      ]

  remap_all_kept :
      (ts : List TransactionRow) (db : Db)
      → Holds P stable id db
      → Holds P stable id (remap_all ts db)
  unfolding remap_all
  remap_all_kept [] db h = h
  remap_all_kept (t ∷ ts) db h =
      remap_all_kept ts (remap_transaction t db) (remap_transaction_kept t db h)

  replace_mappings_kept :
      (mappings : List CameraMappingEntry) (db : Db)
      → Holds P stable id db
      → Holds P stable id (after db (replace_camera_mappings mappings db))
  unfolding replace_camera_mappings
  replace_mappings_kept mappings db h = go _ (check_mappings [] mappings)
    where
      pending : List TransactionRow
      pending = select_where (is_remappable db.evidence_retired) db.transactions

      go :
          (u v : AppResult (Unit {0}))
          → Holds P stable id (
              after {A = Unit {0}} db
                (u >> (v >> ok (tt, remap_all pending (record db { camera_map = mappings })))))
      go (err e) v = h
      go (ok a) (err e) = h
      go (ok a) (ok b) = remap_all_kept pending (record db { camera_map = mappings }) h

  clear_protect_kept :
      (db : Db) → Holds P stable id db → Holds P stable id (clear_protect_evidence db)
  unfolding clear_protect_evidence
  clear_protect_kept db h =
      kept P stable id (λ t. upper_is t.status "COMPLETED" && not (is_sent t.alarm_state)) silence
        (update_where (λ t. true) forget_camera db.transactions) (λ t. unfold silence in refl)
        (λ t _. stable.on_silence t)
        (kept P stable id (λ t. true) forget_camera db.transactions
          (λ t. unfold forget_camera in refl) (λ t _. stable.on_forget t) h)

  retire_kept :
      (k path : String) (same_policy : Bool) (now_ms : ℤ) (reason : String) (db : Db)
      → Holds P stable id db
      → Holds P stable id (after db (retire_thumbnail k path same_policy now_ms reason db))
  unfolding retire_thumbnail
  retire_kept k path same_policy now_ms reason db h =
      let p = λ (t : TransactionRow). str_eq t.id k && is_stored_at path t in
      let rows =
        kept P stable id p (expire now_ms reason) db.transactions (λ t. unfold expire in refl)
          (λ t _. stable.on_expire now_ms reason t) h in
      elim (Bool-cases (not (str_eq reason "age" || str_eq reason "quota"))) [
        | inl e ↦ rw e h
        | inr e ↦ rw e (elim (Bool-cases (not same_policy)) [
          | inl s ↦ rw s h
          | inr s ↦ rw s (elim (Bool-cases (count_where p db.transactions == 1)) [
            | inl c ↦ rw c rows
            | inr c ↦ rw c rows
          ])
        ])
      ]

  reconcile_kept :
      (size : String → ℤ) (db : Db)
      → Holds P stable id db
      → Holds P stable id (reconcile_missing_thumbnails size db)
  unfolding reconcile_missing_thumbnails
  reconcile_kept size db h =
      kept P stable id (λ t. not (has_file db.files t)) detach
        (update_where (has_file db.files) (account size) db.transactions)
        (λ t. unfold detach in refl) (λ t _. stable.on_detach t)
        (kept P stable id (has_file db.files) (account size) db.transactions
          (λ t. unfold account in refl) (λ t _. stable.on_account size t) h)

  update_metadata_kept :
      (k path : String) (expected bytes revision : ℤ) (db : Db)
      → Holds P stable id db
      → Holds P stable id (after db (update_thumbnail_metadata k path expected bytes revision db))
  unfolding update_thumbnail_metadata
  update_metadata_kept k path expected bytes revision db h =
      elim (Bool-cases (is_negative bytes || is_negative revision)) [
        | inl e ↦ rw e h
        | inr e ↦ rw e (
            kept P stable id _ (remeasure bytes revision) db.transactions
              (λ t. unfold remeasure in refl) (λ t _. stable.on_remeasure bytes revision t) h)
      ]

  pub step_kept :
      (c : Call) (db : Db)
      → keeps_account c ≡ true
      → Holds P stable id db
      → Holds P stable id (step c db)
  unfolding step claim_due_thumbnail_retries pending_alarm_ids suppress_pending_alarms
  step_kept (upserts payment) db a h = upsert_payment_kept P stable id payment db h
  step_kept (claims_thumbnails limit now token) db a h = h
  step_kept (completes k token camera ts filename bytes revision) db a h =
      complete_kept P stable id k token camera ts filename bytes revision db h
  step_kept (fails k token camera ts error now) db a h =
      fail_kept P stable id k token camera ts error now db h
  step_kept (requeues_missing k path) db a h = requeue_missing_kept P stable id k path db h
  step_kept (lists_pending limit now) db a h = release_expired_kept now db h
  step_kept (claims_alarm k token now at) db a h = claim_alarm_kept k token now at db h
  step_kept (marks_sent k token at_ms) db a h = mark_sent_kept k token at_ms db h
  step_kept (releases_claim k token) db a h = release_claim_kept k token db h
  step_kept suppresses_alarms db a h =
      kept P stable id _ silence db.transactions (λ t. unfold silence in refl)
        (λ t _. stable.on_silence t) h
  step_kept (writes_note k note revision) db a h = set_note_kept k note revision db h
  step_kept (replaces_mappings mappings) db a h = replace_mappings_kept mappings db h
  step_kept (retires k path same_policy now_ms reason) db a h =
      retire_kept k path same_policy now_ms reason db h
  step_kept (reconciles size) db a h = reconcile_kept size db h
  step_kept (remeasures k path expected bytes revision) db a h =
      update_metadata_kept k path expected bytes revision db h
  step_kept clears_protect db a h = clear_protect_kept db h
  step_kept clears_square db a h = cc

  -- A stable test on a transaction holds after any calls that do not switch the account.
  pub run_kept :
      (calls : List Call) (db : Db)
      → All (λ c. keeps_account c ≡ true) calls
      → is_some_and (find_tx id db) P ≡ true
      → is_some_and (find_tx id (run calls db)) P ≡ true
  unfolding run
  run_kept [] db a h = h
  run_kept (c ∷ calls) db a h = run_kept calls (step c db) a.1 (step_kept c db a.0 h)
