-- ===== src/Store/Feed/Quiet.antt =====
-- The calls of workers, alarms and camera evidence leave the feed as it is.
use mathlib.Core.Option
use square_uni_fi_protect_in.Common.{
  ℕ, ◌≡◌, refl, ◌∙◌, Bool, true, false, not, ◌&&◌, ◌||◌, ◌==◌, Option, List, [], ◌∷◌, map, String,
  ℤ, if◌then◌else◌, arith, AppResult, ok, err, ◌>>◌, Bool-cases, inl, inr, str_eq, opt_eq, opt_is,
  any, is_none, is_negative,
}
use square_uni_fi_protect_in.Table.{
  first_where, update_where, delete_where, count_where, select_where,
}
use square_uni_fi_protect_in.Schema.{CameraMappingEntry, TransactionRow, Db, after}
use square_uni_fi_protect_in.Store.Ingest.{silence}
use square_uni_fi_protect_in.Store.Guards.{validate_camera_id, is_local_filename}
use square_uni_fi_protect_in.Store.Cameras.{camera_for_location}
use square_uni_fi_protect_in.Store.Retries.{
  attach, detach, is_open, is_leased_to, requeue_changed, complete_claimed,
  complete_thumbnail_retry, fail_thumbnail_retry, retarget, current_camera,
  requeue_missing_thumbnail,
}
use square_uni_fi_protect_in.Store.Alarms.{
  release_expired, is_expired_claim, claim, claim_alarm_trigger, unclaim, deliver,
  pending_alarm_ids, mark_alarm_sent, release_alarm_claim, suppress_pending_alarms,
}
use square_uni_fi_protect_in.Store.Evidence.{
  check_mappings, is_remappable, remap_transaction, remap_all, replace_camera_mappings,
  forget_camera, clear_protect_evidence, is_stored_at, expire, retire_thumbnail, has_file, account,
  reconcile_missing_thumbnails, remeasure, update_thumbnail_metadata,
}
use square_uni_fi_protect_in.Store.Feed.Facts.{facts}
use square_uni_fi_protect_in.Store.Feed.Shown.{
  IsQuiet, IsQuiet-refl, IsQuiet-trans, map-update_where,
}

-- Other tables may change at will.
quiet :
    (db db' : Db)
    → map (facts true) db'.transactions ≡ map (facts true) db.transactions
    → db'.snapshots ≡ db.snapshots
    → db'.snapshot_sequence ≡ db.snapshot_sequence
    → IsQuiet db db'
quiet db db' e s n = record { same_snapshots = s; same_sequence = n; same_facts = e }

requeue_changed-IsQuiet : (k token : String) (db : Db) → IsQuiet db (requeue_changed k token db)
unfolding requeue_changed
requeue_changed-IsQuiet k token db = quiet db _ (ground arith) (ground arith) (ground arith)

pub complete-IsQuiet :
    (k token camera : String) (ts : ℤ) (filename : String) (bytes revision : ℤ) (db : Db)
    → IsQuiet db (after db (complete_thumbnail_retry k token camera ts filename bytes revision db))
unfolding complete_thumbnail_retry complete_claimed
complete-IsQuiet k token camera ts filename bytes revision db =
    go _ (validate_camera_id camera) (is_none (first_where (is_leased_to k token) db.retries))
      (count_where p db.transactions == 1)
  where
    p : TransactionRow → Bool
    p t = str_eq t.id k && is_open camera ts t

    db' : Db
    db' = record db {
      transactions = update_where p (attach filename bytes revision) db.transactions;
    }

    rows : map (facts true) db'.transactions ≡ map (facts true) db.transactions
    rows =
        map-update_where p (attach filename bytes revision) db.transactions
          (λ t. unfold attach in refl)

    go :
        (u v : AppResult (Unit {0})) (unclaimed one : Bool)
        → let done : Bool × Db =
            if one
            then (true, record db' { retries = delete_where (is_leased_to k token) db.retries })
            else (false, requeue_changed k token db') in
          IsQuiet db (after db (u >> (v >> (if unclaimed then ok (false, db) else ok done))))
    go (err e) v unclaimed one = IsQuiet-refl db
    go (ok a) (err e) unclaimed one = IsQuiet-refl db
    go (ok a) (ok b) true one = IsQuiet-refl db
    go (ok a) (ok b) false true = quiet db _ rows refl refl
    go (ok a) (ok b) false false =
        IsQuiet-trans db db' _ (quiet db db' rows refl refl) (requeue_changed-IsQuiet k token db')

pub fail-IsQuiet :
    (k token camera : String) (ts : ℤ) (error : String) (now : ℕ) (db : Db)
    → IsQuiet db (fail_thumbnail_retry k token camera ts error now db).1
unfolding fail_thumbnail_retry
fail-IsQuiet k token camera ts error now db =
    let q = requeue_changed-IsQuiet k token db in
    quiet db _ (ground (arith, q.same_facts)) (ground (arith, q.same_snapshots))
      (ground (arith, q.same_sequence))

retarget-IsQuiet :
    (k : String) (camera : Option String) (db : Db) → IsQuiet db (retarget k camera db)
unfolding retarget
retarget-IsQuiet k camera db =
    quiet db _
      (map-update_where (λ t. str_eq t.id k) (λ t. record t { camera_id = camera }) db.transactions
        (λ t. refl))
      refl refl

pub requeue_missing-IsQuiet :
    (k path : String) (db : Db) → IsQuiet db (requeue_missing_thumbnail k path db).1
unfolding requeue_missing_thumbnail
requeue_missing-IsQuiet k path db =
    go (not (is_local_filename path) || any (λ name. str_eq name path) db.files)
      (count_where p db.transactions == 1)
  where
    p : TransactionRow → Bool
    p t = str_eq t.id k && (opt_is t.thumbnail_path path && is_none t.thumbnail_retired_at)

    db' : Db
    db' = record db { transactions = update_where p detach db.transactions }

    rows : IsQuiet db db'
    rows =
        quiet db db' (map-update_where p detach db.transactions (λ t. unfold detach in refl)) refl
          refl

    go :
        (present changed : Bool)
        → let r : Bool × Db =
            if present
            then (false, db)
            else if not changed
            then (false, db')
            else (true, retarget k (current_camera k db') db') in
          IsQuiet db r.1
    go true changed = IsQuiet-refl db
    go false false = rows
    go false true = IsQuiet-trans db db' _ rows (retarget-IsQuiet k (current_camera k db') db')

release_expired-same :
    (now : ℕ) (rows : List TransactionRow)
    → map (facts true) (release_expired now rows) ≡ map (facts true) rows
unfolding release_expired
release_expired-same now rows =
    map-update_where (is_expired_claim now) unclaim rows (λ t. unfold unclaim in refl)

pub pending_alarm_ids-IsQuiet :
    (limit : ℤ) (now : ℕ) (db : Db) → IsQuiet db (pending_alarm_ids limit now db).1
unfolding pending_alarm_ids
pending_alarm_ids-IsQuiet limit now db =
    quiet db _ (release_expired-same now db.transactions) refl refl

pub claim_alarm-IsQuiet :
    (k token : String) (now at : ℕ) (db : Db) → IsQuiet db (claim_alarm_trigger k token now at db).1
unfolding claim_alarm_trigger
claim_alarm-IsQuiet k token now at db =
    quiet db _
      (map-update_where _ (claim token at) (release_expired now db.transactions)
          (λ t. unfold claim in refl)
        ∙ release_expired-same now db.transactions)
      refl refl

pub mark_sent-IsQuiet :
    (k token : String) (at_ms : ℤ) (db : Db) → IsQuiet db (mark_alarm_sent k token at_ms db).1
unfolding mark_alarm_sent
mark_sent-IsQuiet k token at_ms db =
    quiet db _ (map-update_where _ (deliver at_ms) db.transactions (λ t. unfold deliver in refl))
      refl refl

pub release_claim-IsQuiet :
    (k token : String) (db : Db) → IsQuiet db (release_alarm_claim k token db).1
unfolding release_alarm_claim
release_claim-IsQuiet k token db =
    quiet db _ (map-update_where _ unclaim db.transactions (λ t. unfold unclaim in refl)) refl refl

pub suppress-IsQuiet : (db : Db) → IsQuiet db (suppress_pending_alarms db)
unfolding suppress_pending_alarms
suppress-IsQuiet db =
    quiet db _ (map-update_where _ silence db.transactions (λ t. unfold silence in refl)) refl refl

remap_transaction-IsQuiet : (t : TransactionRow) (db : Db) → IsQuiet db (remap_transaction t db)
unfolding remap_transaction
remap_transaction-IsQuiet t db =
    go (Option.map (λ m. m.camera_id) (camera_for_location db.camera_map t.location_id t.device_id))
  where
    go :
        (camera : Option String)
        → IsQuiet db (if opt_eq camera t.camera_id then db else retarget t.id camera db)
    go camera = elim (Bool-cases (opt_eq camera t.camera_id)) [
      | inl e ↦ rw e (IsQuiet-refl db)
      | inr e ↦ rw e (retarget-IsQuiet t.id camera db)
    ]

remap_all-IsQuiet : (ts : List TransactionRow) (db : Db) → IsQuiet db (remap_all ts db)
unfolding remap_all
remap_all-IsQuiet [] db = IsQuiet-refl db
remap_all-IsQuiet (t ∷ ts) db =
    IsQuiet-trans db (remap_transaction t db) _ (remap_transaction-IsQuiet t db)
      (remap_all-IsQuiet ts (remap_transaction t db))

pub replace_mappings-IsQuiet :
    (mappings : List CameraMappingEntry) (db : Db)
    → IsQuiet db (after db (replace_camera_mappings mappings db))
unfolding replace_camera_mappings
replace_mappings-IsQuiet mappings db = go _ (check_mappings [] mappings)
  where
    pending : List TransactionRow
    pending = select_where (is_remappable db.evidence_retired) db.transactions

    mapped : Db
    mapped = record db { camera_map = mappings }

    go :
        (u v : AppResult (Unit {0}))
        → IsQuiet db (after {A = Unit {0}} db (u >> (v >> ok (tt, remap_all pending mapped))))
    go (err e) v = IsQuiet-refl db
    go (ok a) (err e) = IsQuiet-refl db
    go (ok a) (ok b) =
        IsQuiet-trans db mapped _ (quiet db mapped refl refl refl)
          (remap_all-IsQuiet pending mapped)

pub clear_protect-IsQuiet : (db : Db) → IsQuiet db (clear_protect_evidence db)
unfolding clear_protect_evidence
clear_protect-IsQuiet db =
    quiet db _
      (map-update_where _ silence (update_where (λ t. true) forget_camera db.transactions)
          (λ t. unfold silence in refl)
        ∙ map-update_where (λ t. true) forget_camera db.transactions
            (λ t. unfold forget_camera in refl))
      refl refl

pub retire-IsQuiet :
    (k path : String) (same_policy : Bool) (now_ms : ℤ) (reason : String) (db : Db)
    → IsQuiet db (after db (retire_thumbnail k path same_policy now_ms reason db))
unfolding retire_thumbnail
retire-IsQuiet k path same_policy now_ms reason db =
    let p = λ (t : TransactionRow). str_eq t.id k && is_stored_at path t in
    let rows =
      map-update_where p (expire now_ms reason) db.transactions (λ t. unfold expire in refl) in
    elim (Bool-cases (not (str_eq reason "age" || str_eq reason "quota"))) [
      | inl e ↦ rw e (IsQuiet-refl db)
      | inr e ↦ rw e (elim (Bool-cases (not same_policy)) [
        | inl s ↦ rw s (IsQuiet-refl db)
        | inr s ↦ rw s (elim (Bool-cases (count_where p db.transactions == 1)) [
          | inl c ↦ rw c (quiet db _ rows refl refl)
          | inr c ↦ rw c (quiet db _ rows refl refl)
        ])
      ])
    ]

pub reconcile-IsQuiet :
    (size : String → ℤ) (db : Db) → IsQuiet db (reconcile_missing_thumbnails size db)
unfolding reconcile_missing_thumbnails
reconcile-IsQuiet size db =
    quiet db _
      (map-update_where _ detach (update_where (has_file db.files) (account size) db.transactions)
          (λ t. unfold detach in refl)
        ∙ map-update_where (has_file db.files) (account size) db.transactions
            (λ t. unfold account in refl))
      refl refl

pub update_metadata-IsQuiet :
    (k path : String) (expected bytes revision : ℤ) (db : Db)
    → IsQuiet db (after db (update_thumbnail_metadata k path expected bytes revision db))
unfolding update_thumbnail_metadata
update_metadata-IsQuiet k path expected bytes revision db =
    elim (Bool-cases (is_negative bytes || is_negative revision)) [
      | inl e ↦ rw e (IsQuiet-refl db)
      | inr e ↦ rw e (
          quiet db _
            (map-update_where _ (remeasure bytes revision) db.transactions
              (λ t. unfold remeasure in refl))
            refl refl)
    ]
