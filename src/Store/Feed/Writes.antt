-- ===== src/Store/Feed/Writes.antt =====
-- A payment or a note may change what the feed shows: then no snapshot that showed it stays.
use square_uni_fi_protect_in.Common.{
  ℕ, ◌≡◌, ◌≤◌, refl, ap, ◌∙◌, Bool, true, false, not, ◌&&◌, Option, none, some, List, [], ◌∷◌, map,
  take, length, length-append, All, String, ℤ, if◌then◌else◌, arith, AppResult, ok, err, ◌>>◌,
  is_negative, unprocessable, refuse_if, is_none, Bool-cases, Option-cases, inl, inr, str_eq,
  str_is_empty, eqb_ℤ, leb_ℤ,
}
use square_uni_fi_protect_in.Table.{find, update_where, delete_where, IsUnique}
use square_uni_fi_protect_in.Schema.{
  PaymentFacts, TransactionRow, FeedSnapshot, SettingRow, Db, tx_key, find_tx, is_sent, after,
}
use square_uni_fi_protect_in.Store.Guards.{validate_payment, validate_note}
use square_uni_fi_protect_in.Store.Ingest.{
  is_stale, offered_row, merge_row, write_row, silence, is_historical, suppress_historical_alarm,
  timestamp_changed, searched_facts_changed, expire_snapshots, apply_payment, upsert_payment,
}
use square_uni_fi_protect_in.Store.Ingest.Rows.{stored_camera}
use square_uni_fi_protect_in.Store.Notes.{write_note, edit_note, set_transaction_note}
use square_uni_fi_protect_in.Store.Feed.Facts.{FeedFacts, facts}
use square_uni_fi_protect_in.Store.Feed.Shown.{
  is_live, HasView, Shows, delete_where-All, is_live-delete, is_live-unfiltered,
}
use square_uni_fi_protect_in.Store.Feed.Updates.{
  length-update_where, map-update_rows, map-update_keyed, take-append, take_same, merge_row-facts,
  silence-facts,
}

module _ (i boundary : ℕ) (signature : String) (shown : List FeedFacts) where
  abbrev pub Keeps : Db → Type 0
  Keeps db = Shows i boundary signature shown db

  abbrev filtered : Bool
  filtered = not (str_is_empty signature)

  expire_snapshots-views :
      (payment : PaymentFacts) (existing : Option TransactionRow) (snapshots : List FeedSnapshot)
      → All (HasView i boundary signature) snapshots
      → All (HasView i boundary signature) (expire_snapshots payment existing snapshots)
  unfolding expire_snapshots
  expire_snapshots-views payment existing snapshots h =
      elim (Bool-cases (timestamp_changed payment existing)) [
        | inl t ↦ elim (Bool-cases (searched_facts_changed payment existing)) [
          | inl s ↦ rw (t, s) (unfold delete_where in tt)
          | inr s ↦ rw (t, s) tt
        ]
        | inr t ↦ elim (Bool-cases (searched_facts_changed payment existing)) [
          | inl s ↦ rw (t, s) (delete_where-All (HasView i boundary signature) _ snapshots h)
          | inr s ↦ rw (t, s) h
        ]
      ]

  -- If the snapshot survives, nothing that it shows changed.
  expire_snapshots-live :
      (payment : PaymentFacts) (existing : Option TransactionRow) (snapshots : List FeedSnapshot)
      → All (HasView i boundary signature) snapshots
      → is_live i (expire_snapshots payment existing snapshots) ≡ true
      → (is_live i snapshots ≡ true)
        × (timestamp_changed payment existing ≡ false)
        × (filtered ≡ true → searched_facts_changed payment existing ≡ false)
  unfolding expire_snapshots
  expire_snapshots-live payment existing snapshots h live =
      elim (Bool-cases (timestamp_changed payment existing)) [
        | inl t ↦ elim (Bool-cases (searched_facts_changed payment existing)) [
          | inl s ↦ absurd (unfold delete_where in ground (arith, rw (t, s) at live))
          | inr s ↦ absurd (ground (arith, rw (t, s) at live))
        ]
        | inr t ↦ elim (Bool-cases (searched_facts_changed payment existing)) [
          | inl s ↦
              let left = rw (t, s) at live in
              let plain = is_live-unfiltered i boundary signature snapshots h left in
              (is_live-delete i _ snapshots left, t, λ f. ground (arith, plain, f))
          | inr s ↦ (rw (t, s) at live, t, λ f. s)
        ]
      ]

  suppress-same :
      (payment : PaymentFacts) (existing : Option TransactionRow) (settings : List SettingRow)
      (rows : List TransactionRow)
      → (map (facts filtered) (suppress_historical_alarm payment existing settings rows)
          ≡ map (facts filtered) rows)
        × (length (suppress_historical_alarm payment existing settings rows) ≡ length rows)
  unfolding suppress_historical_alarm
  suppress-same payment existing settings rows =
      let p = λ (t : TransactionRow). str_eq t.id payment.id && not (is_sent t.alarm_state) in
      elim (Bool-cases (is_historical payment existing settings)) [
        | inl e ↦ rw e (
          map-update_rows filtered p silence rows (silent rows),
          length-update_where p silence rows,
        )
        | inr e ↦ rw e (refl, refl)
      ]
    where
      silent :
          (ts : List TransactionRow)
          → All
              (λ (t : TransactionRow).
                (str_eq t.id payment.id && not (is_sent t.alarm_state)) ≡ true
                → facts filtered (silence t) ≡ facts filtered t)
              ts
      silent [] = tt
      silent (t ∷ ts) = (λ h. silence-facts filtered t, silent ts)

  write_row-same :
      (x : TransactionRow) (rows : List TransactionRow) (n : ℕ)
      → IsUnique tx_key rows
      → n ≤ length rows
      → ((e : TransactionRow)
          → find tx_key x.id rows ≡ some e
          → facts filtered (merge_row x e) ≡ facts filtered e)
      → (map (facts filtered) (take n (write_row x rows)) ≡ map (facts filtered) (take n rows))
        × (n ≤ length (write_row x rows))
  unfolding write_row
  write_row-same x rows n u h keep = elim (Option-cases (find tx_key x.id rows)) [
    | inl e ↦
        rw (e, write_row)
          (
            ap (map (facts filtered)) (take-append n rows x h),
            omega (arith, h, length-append {0} rows (x ∷ [])),
          )
    | inr (old, e) ↦
        let q = λ (t : TransactionRow). leb_ℤ t.updated_ts_ms x.updated_ts_ms in
        rw (e, write_row)
          (
            take_same filtered n rows
                (update_where (λ t. str_eq t.id x.id && q t) (merge_row x) rows)
                (map-update_keyed filtered x.id q (merge_row x) rows u keep),
            rw (length-update_where (λ t. str_eq t.id x.id && q t) (merge_row x) rows) h,
          )
  ]

  stored_rows-same :
      (payment : PaymentFacts) (camera : Option String) (settings : List SettingRow)
      (rows : List TransactionRow) (n : ℕ)
      → IsUnique tx_key rows
      → n ≤ length rows
      → timestamp_changed payment (find tx_key payment.id rows) ≡ false
      → (filtered ≡ true → searched_facts_changed payment (find tx_key payment.id rows) ≡ false)
      → let existing = find tx_key payment.id rows in
        let stored =
          suppress_historical_alarm payment existing settings
            (write_row (offered_row payment existing camera) rows) in
        (n ≤ length stored)
        × (map (facts filtered) (take n stored) ≡ map (facts filtered) (take n rows))
  unfolding offered_row
  stored_rows-same payment camera settings rows n u h t s =
      let existing = find tx_key payment.id rows in
      let x = offered_row payment existing camera in
      let written = write_row-same x rows n u h (λ e found.
        ap (λ o. facts filtered (merge_row (offered_row payment o camera) e)) found
        ∙ merge_row-facts filtered payment e camera (rw found at t) (λ f. rw found at (s f))) in
      let silent = suppress-same payment existing settings (write_row x rows) in
      (rw silent.1 written.1, take_same filtered n (write_row x rows) _ silent.0 ∙ written.0)

  apply_payment-Shows :
      (payment : PaymentFacts) (db : Db)
      → IsUnique tx_key db.transactions
      → Keeps db
      → Keeps (apply_payment payment (find_tx payment.id db) db)
  unfolding apply_payment
  apply_payment-Shows payment db u h = record {
    issued = h.issued;
    views = expire_snapshots-views payment (find_tx payment.id db) db.snapshots h.views;
    rows = λ live.
        let kept =
          expire_snapshots-live payment (find_tx payment.id db) db.snapshots h.views live in
        let old = h.rows kept.0 in
        let stored =
          stored_rows-same payment (stored_camera payment db) db.settings db.transactions boundary u
            old.0 kept.1 kept.2 in
        unfold stored_camera in (stored.0, stored.1 ∙ old.1);
  }

  pub upsert_payment-Shows :
      (payment : PaymentFacts) (db : Db)
      → IsUnique tx_key db.transactions
      → Keeps db
      → Keeps (after db (upsert_payment payment db))
  unfolding upsert_payment
  upsert_payment-Shows payment db u h =
      go (validate_payment payment) (is_stale payment (find_tx payment.id db))
    where
      go :
          (v : AppResult (Unit {0})) (stale : Bool)
          → Keeps (
              after db (
                v
                >> (if stale
                    then ok (false, db)
                    else ok (
                      is_none (find_tx payment.id db),
                      apply_payment payment (find_tx payment.id db) db,
                    ))))
      go (err e) stale = h
      go (ok a) true = h
      go (ok a) false = apply_payment-Shows payment db u h

  write_note-Shows :
      (k note : String) (revision : ℤ) (db : Db) → Keeps db → Keeps (write_note k note revision db)
  unfolding write_note
  write_note-Shows k note revision db h = record {
    issued = h.issued;
    views = delete_where-All (HasView i boundary signature) _ db.snapshots h.views;
    rows = λ live.
        let old = h.rows (is_live-delete i _ db.snapshots live) in
        let plain = is_live-unfiltered i boundary signature db.snapshots h.views live in
        let p = λ (t : TransactionRow). str_eq t.id k in
        let f = λ (t : TransactionRow). record t { note = note; note_revision = revision } in
        (
          rw (length-update_where p f db.transactions) old.0,
          take_same filtered boundary db.transactions (update_where p f db.transactions)
                (map-update_rows filtered p f db.transactions (noted plain db.transactions))
              ∙ old.1,
        );
  }
    where
      noted :
          str_is_empty signature ≡ true
          → (ts : List TransactionRow)
          → All
              (λ (t : TransactionRow).
                str_eq t.id k ≡ true
                → facts filtered (record t { note = note; note_revision = revision })
                  ≡ facts filtered t)
              ts
      noted plain [] = tt
      noted plain (t ∷ ts) = (λ h. rw plain refl, noted plain ts)

  edit_note-Shows :
      (k note : String) (expected : ℤ) (db : Db) (found : Option TransactionRow)
      → Keeps db
      → Keeps (after db (edit_note k note expected db found))
  unfolding edit_note
  edit_note-Shows k note expected db none h = h
  edit_note-Shows k note expected db (some t) h =
      elim (Bool-cases (not (eqb_ℤ t.note_revision expected))) [
        | inl e ↦ rw e h
        | inr e ↦ rw e (elim (Bool-cases (str_eq t.note note)) [
          | inl s ↦ rw s h
          | inr s ↦ rw s (write_note-Shows k note _ db h)
        ])
      ]

  pub set_note-Shows :
      (k note : String) (expected : ℤ) (db : Db)
      → Keeps db
      → Keeps (after db (set_transaction_note k note expected db))
  unfolding set_transaction_note
  set_note-Shows k note expected db h =
      go (validate_note note) (refuse_if (is_negative expected) unprocessable)
    where
      go :
          (u v : AppResult (Unit {0}))
          → Keeps (after db (u >> (v >> edit_note k note expected db (find_tx k db))))
      go (err e) v = h
      go (ok a) (err e) = h
      go (ok a) (ok b) = edit_note-Shows k note expected db (find_tx k db) h
