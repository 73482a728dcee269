-- ===== src/Store/Evidence/Mappings.antt =====
-- src/store.rs: replacing the camera mappings keeps the durable queue of thumbnails exact.
use mathlib.Core.Option
use square_uni_fi_protect_in.Common.{
  ◌≡◌, refl, true, ◌&&◌, Option, some, List, [], ◌∷◌, String, if◌then◌else◌, opt_eq, arith,
  Bool-cases, Option-cases, inl, inr, is_none, is_some_and, AppResult, ok, err, ◌>>◌, All, All-mono,
}
use square_uni_fi_protect_in.Table.{select_where, find-update_row, select_where-All, IsUnique-found}
use square_uni_fi_protect_in.Schema.{CameraMappingEntry, TransactionRow, Db, tx_key, find_tx, after}
use square_uni_fi_protect_in.Store.Retries.{retarget}
use square_uni_fi_protect_in.Store.Retries.Queue.{retarget-IsConsistent}
use square_uni_fi_protect_in.Store.Cameras.{camera_for_location}
use square_uni_fi_protect_in.Store.Queue.{IsConsistent}
use square_uni_fi_protect_in.Store.Evidence.{
  check_mappings, is_remappable, remap_transaction, remap_all, replace_camera_mappings,
}

-- The transaction is there, without a thumbnail and not retired.
abbrev IsUncaptured : Db → TransactionRow → Type 0
IsUncaptured db t =
    is_some_and (find_tx t.id db) (λ s. is_none s.thumbnail_path && is_none s.thumbnail_retired_at)
    ≡ true

retarget-IsUncaptured :
    (id : String) (camera : Option String) (db : Db) (t : TransactionRow)
    → IsUncaptured db t
    → IsUncaptured (retarget id camera db) t
unfolding retarget
retarget-IsUncaptured id camera db t h = ground (
  arith,
  h,
  find-update_row tx_key id (λ s. record s { camera_id = camera }) t.id db.transactions (λ s. refl),
)

retarget_uncaptured :
    (t : TransactionRow) (camera : Option String) (db : Db)
    → IsUncaptured db t
    → IsConsistent db
    → IsConsistent (retarget t.id camera db)
retarget_uncaptured t camera db h q = elim (Option-cases (find_tx t.id db)) [
  | inl e ↦ absurd (ground (arith, h, e))
  | inr (s, e) ↦
      retarget-IsConsistent t.id camera db s q.tx_unique q.retry_unique e (ground (arith, h, e))
        (λ k ne. q.exact k)
]

remap_transaction-IsConsistent :
    (t : TransactionRow) (db : Db)
    → IsUncaptured db t
    → IsConsistent db
    → IsConsistent (remap_transaction t db)
unfolding remap_transaction
remap_transaction-IsConsistent t db h q =
    go (Option.map (λ m. m.camera_id) (camera_for_location db.camera_map t.location_id t.device_id))
  where
    go :
        (camera : Option String)
        → IsConsistent (if opt_eq camera t.camera_id then db else retarget t.id camera db)
    go camera = elim (Bool-cases (opt_eq camera t.camera_id)) [
      | inl e ↦ rw e q
      | inr e ↦ rw e (retarget_uncaptured t camera db h q)
    ]

remap_transaction-IsUncaptured :
    (t : TransactionRow) (db : Db) (s : TransactionRow)
    → IsUncaptured db s
    → IsUncaptured (remap_transaction t db) s
unfolding remap_transaction
remap_transaction-IsUncaptured t db s h =
    go (Option.map (λ m. m.camera_id) (camera_for_location db.camera_map t.location_id t.device_id))
  where
    go :
        (camera : Option String)
        → IsUncaptured (if opt_eq camera t.camera_id then db else retarget t.id camera db) s
    go camera = elim (Bool-cases (opt_eq camera t.camera_id)) [
      | inl e ↦ rw e h
      | inr e ↦ rw e (retarget-IsUncaptured t.id camera db s h)
    ]

remap_all-IsConsistent :
    (ts : List TransactionRow) (db : Db)
    → All (IsUncaptured db) ts
    → IsConsistent db
    → IsConsistent (remap_all ts db)
unfolding remap_all
remap_all-IsConsistent [] db h q = q
remap_all-IsConsistent (t ∷ ts) db h q =
    remap_all-IsConsistent ts (remap_transaction t db)
      (All-mono (IsUncaptured db) (IsUncaptured (remap_transaction t db)) ts
        (remap_transaction-IsUncaptured t db) h.1)
      (remap_transaction-IsConsistent t db h.0 q)

pending-IsUncaptured :
    (db : Db)
    → IsConsistent db
    → All (IsUncaptured db) (select_where (is_remappable db.evidence_retired) db.transactions)
pending-IsUncaptured db q =
    All-mono (λ t. (find_tx t.id db ≡ some t) × (is_remappable db.evidence_retired t ≡ true))
      (IsUncaptured db) (select_where (is_remappable db.evidence_retired) db.transactions)
      (λ t e. unfold is_remappable in ground (arith, e.0, e.1))
      (select_where-All (λ t. find_tx t.id db ≡ some t) (is_remappable db.evidence_retired)
        db.transactions (IsUnique-found tx_key db.transactions q.tx_unique))

-- Replacing the camera mappings of a consistent database, accepted or refused, leaves it
-- consistent.
pub replace_camera_mappings-IsConsistent :
    (mappings : List CameraMappingEntry) (db : Db)
    → IsConsistent db
    → IsConsistent (after db (replace_camera_mappings mappings db))
unfolding replace_camera_mappings
replace_camera_mappings-IsConsistent mappings db q = go _ (check_mappings [] mappings)
  where
    remapped : Db
    remapped = record db { camera_map = mappings }

    go :
        (u v : AppResult (Unit {0}))
        → IsConsistent (
            after {A = Unit {0}} db (
              u
              >> (v
                  >> ok (
                    tt,
                    remap_all
                        (select_where (is_remappable db.evidence_retired) db.transactions)
                        remapped,
                  ))))
    go (err e) v = q
    go (ok a) (err e) = q
    go (ok a) (ok b) =
        remap_all-IsConsistent _ remapped (pending-IsUncaptured db q)
          (record { tx_unique = q.tx_unique; retry_unique = q.retry_unique; exact = q.exact })
