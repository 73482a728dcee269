-- ===== src/Store/Feed/Kept.antt =====
-- No call of the store, nor a request of a page, changes what a live snapshot shows.
use square_uni_fi_protect_in.Common.{
  ℕ, ◌≡◌, refl, Bool, false, not, ◌||◌, ◌==◌, Option, none, some, List, [], ◌∷◌, ◌++◌, length, All,
  String, ℤ, arith, AppResult, AppResult-cases, ok, Bool-cases, Option-cases, inl, inr, str_eq,
}
use square_uni_fi_protect_in.Table.{first_where, update_where, delete_where}
use square_uni_fi_protect_in.Schema.{FeedSnapshot, Db, after}
use square_uni_fi_protect_in.Store.Steps.{
  Call, upserts, claims_thumbnails, completes, fails, requeues_missing, lists_pending, claims_alarm,
  marks_sent, releases_claim, suppresses_alarms, writes_note, replaces_mappings, retires,
  reconciles, remeasures, clears_protect, clears_square, step,
}
use square_uni_fi_protect_in.Store.Queue.{IsConsistent}
use square_uni_fi_protect_in.Store.Retries.{claim_due_thumbnail_retries}
use square_uni_fi_protect_in.Store.Evidence.{clear_square_account_data}
use square_uni_fi_protect_in.Store.Feed.{
  FeedFilter, FeedPage, new_snapshot, transaction_filter, open_snapshot, resume_snapshot,
  trim_snapshots, is_same_view, has_id, first_page, next_page, expire_unused,
  list_transactions_page, is_bad_page,
}
use square_uni_fi_protect_in.Store.Feed.Facts.{FeedFacts}
use square_uni_fi_protect_in.Store.Feed.Shown.{
  is_live, HasView, Shows, IsQuiet-Shows, delete_where-All, is_live-delete,
}
use square_uni_fi_protect_in.Store.Feed.Quiet.{
  complete-IsQuiet, fail-IsQuiet, requeue_missing-IsQuiet, pending_alarm_ids-IsQuiet,
  claim_alarm-IsQuiet, mark_sent-IsQuiet, release_claim-IsQuiet, suppress-IsQuiet,
  replace_mappings-IsQuiet, clear_protect-IsQuiet, retire-IsQuiet, reconcile-IsQuiet,
  update_metadata-IsQuiet,
}
use square_uni_fi_protect_in.Store.Feed.Writes.{upsert_payment-Shows, set_note-Shows}

module _ (i boundary : ℕ) (signature : String) (shown : List FeedFacts) where
  abbrev Keeps : Db → Type 0
  Keeps db = Shows i boundary signature shown db

  pub step-Shows : (c : Call) (db : Db) → IsConsistent db → Keeps db → Keeps (step c db)
  unfolding step claim_due_thumbnail_retries
  step-Shows (upserts payment) db q h =
      upsert_payment-Shows i boundary signature shown payment db q.tx_unique h
  step-Shows (claims_thumbnails limit now token) db q h = record {
    issued = h.issued;
    views = h.views;
    rows = h.rows;
  }
  step-Shows (completes k token camera ts filename bytes revision) db q h =
      IsQuiet-Shows i boundary signature shown db _
        (complete-IsQuiet k token camera ts filename bytes revision db) h
  step-Shows (fails k token camera ts error now) db q h =
      IsQuiet-Shows i boundary signature shown db _ (fail-IsQuiet k token camera ts error now db) h
  step-Shows (requeues_missing k path) db q h =
      IsQuiet-Shows i boundary signature shown db _ (requeue_missing-IsQuiet k path db) h
  step-Shows (lists_pending limit now) db q h =
      IsQuiet-Shows i boundary signature shown db _ (pending_alarm_ids-IsQuiet limit now db) h
  step-Shows (claims_alarm k token now at) db q h =
      IsQuiet-Shows i boundary signature shown db _ (claim_alarm-IsQuiet k token now at db) h
  step-Shows (marks_sent k token at_ms) db q h =
      IsQuiet-Shows i boundary signature shown db _ (mark_sent-IsQuiet k token at_ms db) h
  step-Shows (releases_claim k token) db q h =
      IsQuiet-Shows i boundary signature shown db _ (release_claim-IsQuiet k token db) h
  step-Shows suppresses_alarms db q h =
      IsQuiet-Shows i boundary signature shown db _ (suppress-IsQuiet db) h
  step-Shows (writes_note k note revision) db q h =
      set_note-Shows i boundary signature shown k note revision db h
  step-Shows (replaces_mappings mappings) db q h =
      IsQuiet-Shows i boundary signature shown db _ (replace_mappings-IsQuiet mappings db) h
  step-Shows (retires k path same_policy now_ms reason) db q h =
      IsQuiet-Shows i boundary signature shown db _
        (retire-IsQuiet k path same_policy now_ms reason db) h
  step-Shows (reconciles size) db q h =
      IsQuiet-Shows i boundary signature shown db _ (reconcile-IsQuiet size db) h
  step-Shows (remeasures k path expected bytes revision) db q h =
      IsQuiet-Shows i boundary signature shown db _
        (update_metadata-IsQuiet k path expected bytes revision db) h
  step-Shows clears_protect db q h =
      IsQuiet-Shows i boundary signature shown db _ (clear_protect-IsQuiet db) h
  step-Shows clears_square db q h =
      unfold clear_square_account_data in
      record { issued = h.issued; views = tt; rows = λ live. absurd (cc) }

  -- Deleting snapshots, and using one, leaves the view.
  pub deleted-Shows :
      (p : FeedSnapshot → Bool) (db : Db)
      → Keeps db
      → Keeps (record db { snapshots = delete_where p db.snapshots })
  deleted-Shows p db h = record {
    issued = h.issued;
    views = delete_where-All (HasView i boundary signature) p db.snapshots h.views;
    rows = λ live. h.rows (is_live-delete i p db.snapshots live);
  }

  pub touched-views :
      (p : FeedSnapshot → Bool) (now : ℕ) (rows : List FeedSnapshot)
      → All (HasView i boundary signature) rows
      → All
          (HasView i boundary signature)
          (update_where p (λ x. record x { last_accessed_at = now }) rows)
  unfolding update_where
  touched-views p now [] h = tt
  touched-views p now (s ∷ rows) h = elim (Bool-cases (p s)) [
    | inl e ↦ rw e (h.0, touched-views p now rows h.1)
    | inr e ↦ rw e (h.0, touched-views p now rows h.1)
  ]

  touched-is_live :
      (p : FeedSnapshot → Bool) (now : ℕ) (rows : List FeedSnapshot)
      → is_live i (update_where p (λ x. record x { last_accessed_at = now }) rows) ≡ is_live i rows
  unfolding update_where
  touched-is_live p now [] = refl
  touched-is_live p now (s ∷ rows) = elim (Bool-cases (p s)) [
    | inl e ↦ rw (e, touched-is_live p now rows) refl
    | inr e ↦ rw (e, touched-is_live p now rows) refl
  ]

  touched-Shows :
      (p : FeedSnapshot → Bool) (now : ℕ) (db : Db)
      → Keeps db
      → Keeps (record db {
        snapshots = update_where p (λ x. record x { last_accessed_at = now }) db.snapshots;
      })
  touched-Shows p now db h = record {
    issued = h.issued;
    views = touched-views p now db.snapshots h.views;
    rows = λ live. h.rows (rw (touched-is_live p now db.snapshots) at live);
  }

  pub appended-views :
      (s : FeedSnapshot) (rows : List FeedSnapshot)
      → HasView i boundary signature s
      → All (HasView i boundary signature) rows
      → All (HasView i boundary signature) (rows ++ s ∷ [])
  appended-views s [] v h = (v, tt)
  appended-views s (x ∷ rows) v h = (h.0, appended-views s rows v h.1)

  appended-is_live :
      (s : FeedSnapshot) (rows : List FeedSnapshot)
      → is_live i (rows ++ s ∷ []) ≡ (is_live i rows || s.id == i)
  appended-is_live s [] = ground arith
  appended-is_live s (x ∷ rows) = ground (arith, appended-is_live s rows)

  -- A new snapshot has a new id.
  opened-Shows :
      (sig : String) (now : ℕ) (db : Db)
      → Keeps db
      → Keeps (record db {
        snapshots = (open_snapshot sig now db).1;
        snapshot_sequence = (open_snapshot sig now db).2;
      })
  unfolding open_snapshot
  opened-Shows sig now db h =
      let p = is_same_view db.order_revision (length db.transactions) sig in
      elim (Option-cases (first_where p db.snapshots)) [
        | inl e ↦
            let s = new_snapshot sig now db in
            let other : s.id == i ≡ false = ground (arith, h.issued) in
            rw (e, open_snapshot)
              (record {
                issued = omega (arith, h.issued);
                views =
                    appended-views s db.snapshots (λ same. absurd (ground (arith, same, other)))
                      h.views;
                rows =
                    λ live. h.rows (ground (arith, live, other, appended-is_live s db.snapshots));
              })
        | inr (s, e) ↦ rw (e, open_snapshot) (touched-Shows p now db h)
      ]

  first_page-Shows :
      (filter : FeedFilter × String) (limit offset : ℤ) (now : ℕ) (db : Db)
      → Keeps db
      → Keeps (first_page filter limit offset now db).1
  unfolding first_page trim_snapshots
  first_page-Shows (f, sig) limit offset now db h = deleted-Shows _ _ (opened-Shows sig now db h)

  next_page-Shows :
      (filter : FeedFilter × String) (limit offset id : ℤ) (now : ℕ) (old db : Db)
      → Keeps old
      → Keeps db
      → Keeps (after old (next_page filter limit offset id now db))
  unfolding next_page resume_snapshot trim_snapshots
  next_page-Shows (f, sig) limit offset id now old db g h =
      elim (Option-cases (first_where (has_id id) db.snapshots)) [
        | inl e ↦ rw e g
        | inr (s, e) ↦ rw e (elim (Bool-cases (not (str_eq s.filter_signature sig))) [
          | inl bad ↦ rw bad g
          | inr good ↦ rw good (deleted-Shows _ _ (touched-Shows (has_id id) now db h))
        ])
      ]

  -- A page neither brings a second snapshot under an old id nor touches a transaction.
  pub list_page-Shows :
      (keyed_hmac_hex : String → String → AppResult String) (limit offset : ℤ)
      (snapshot_id : Option ℤ) (query status : String) (now : ℕ) (db : Db)
      → Keeps db
      → Keeps (
          after db
            (list_transactions_page keyed_hmac_hex limit offset snapshot_id query status now db))
  unfolding list_transactions_page
  list_page-Shows keyed_hmac_hex limit offset snapshot_id query status now db h =
      elim (Bool-cases (is_bad_page limit offset)) [
        | inl bad ↦ rw bad h
        | inr good ↦
            rw good (elim (AppResult-cases (transaction_filter keyed_hmac_hex query status)) [
              | inl (x, e) ↦ rw e h
              | inr (filter, e) ↦ rw e (page filter snapshot_id)
            ])
      ]
    where
      live : Keeps (expire_unused now db)
      live = deleted-Shows _ db h

      page :
          (filter : FeedFilter × String) (sid : Option ℤ)
          → Keeps (
              after db (elim sid as (λ _. AppResult (FeedPage × Db)) [
                | none ↦ ok (first_page filter limit offset now (expire_unused now db))
                | some id ↦ next_page filter limit offset id now (expire_unused now db)
              ]))
      page filter none = first_page-Shows filter limit offset now (expire_unused now db) live
      page filter (some id) =
          next_page-Shows filter limit offset id now db (expire_unused now db) h live
