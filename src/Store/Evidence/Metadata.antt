-- ===== src/Store/Evidence/Metadata.antt =====
-- src/store.rs, `update_thumbnail_metadata`: concurrent compressions of one thumbnail.
use mathlib.Core.Option
use square_uni_fi_protect_in.Common.{
  ◌≡◌, refl, Bool, true, false, ◌&&◌, ◌||◌, ◌==◌, Option, some, String, ℤ, List, ap, ◌∙◌,
  if◌then◌else◌, eqb_ℤ, is_negative, str_eq, str_eq_iff, str_eq_refl, ok, arith, Bool-cases,
  Option-cases, inl, inr,
}
use square_uni_fi_protect_in.Table.{
  find, IsUnique, count_where, update_where, count-key, find-update_key, update_where-IsUnique,
}
use square_uni_fi_protect_in.Schema.{TransactionRow, Db, tx_key, find_tx}
use square_uni_fi_protect_in.Store.Evidence.{is_stored_at, remeasure, update_thumbnail_metadata}

recorded :
    (id path : String) (expected bytes revision : ℤ) (db db' : Db)
    → update_thumbnail_metadata id path expected bytes revision db ≡ ok (true, db')
    → let p = λ (t : TransactionRow).
      str_eq t.id id && (is_stored_at path t && eqb_ℤ t.thumbnail_policy_revision expected) in
      ((count_where p db.transactions == 1) ≡ true)
      × (db'.transactions ≡ update_where p (remeasure bytes revision) db.transactions)
unfolding update_thumbnail_metadata
recorded id path expected bytes revision db db' e =
    elim (Bool-cases (is_negative bytes || is_negative revision)) [
      | inl bad ↦ absurd (ground (arith, e, bad))
      | inr fine ↦ (ground (arith, e, fine), ground (arith, e, fine))
    ]

-- The row that was recorded has another revision now.
recorded_row :
    (id path : String) (expected bytes revision : ℤ) (rows : List TransactionRow)
    → let q =
        λ (t : TransactionRow). is_stored_at path t && eqb_ℤ t.thumbnail_policy_revision expected in
      let p = λ (t : TransactionRow). str_eq t.id id && q t in
      IsUnique tx_key rows
      → eqb_ℤ revision expected ≡ false
      → (count_where p rows == 1) ≡ true
      → (t : TransactionRow) × (find tx_key id (update_where p (remeasure bytes revision) rows)
          ≡ some t)
        × (q t ≡ false)
recorded_row id path expected bytes revision rows u moved once =
    let q =
      λ (t : TransactionRow). is_stored_at path t && eqb_ℤ t.thumbnail_policy_revision expected in
    let counted = count-key tx_key id q rows u in
    let found =
      find-update_key tx_key id q (remeasure bytes revision) id rows
        (λ t. unfold remeasure in refl) in
    elim (Option-cases (find tx_key id rows)) [
      | inl e ↦ absurd (ground (arith, counted, once, e))
      | inr (t, e) ↦ (
        remeasure bytes revision t,
        ground (arith, found, counted, once, e, str_eq_refl id),
        unfold remeasure in ground (arith, moved),
      )
    ]

untouched :
    (q : TransactionRow → Bool) (f : TransactionRow → TransactionRow) (b : Bool)
    (o : Option TransactionRow) (t : TransactionRow)
    → q t ≡ false
    → (b ≡ true → o ≡ some t)
    → (if b then Option.map (λ r. if q r then f r else r) o else o) ≡ o
untouched q f false o t miss h = refl
untouched q f true o t miss h = rw (h refl, miss) refl

-- With unique ids: once a compression of a thumbnail was recorded under a new revision, another one
-- that started from the same revision is refused, and leaves every transaction as it is.
pub update_thumbnail_metadata_fenced :
    (id path : String) (expected bytes revision other_bytes other_revision : ℤ) (db db' : Db)
    → IsUnique tx_key db.transactions
    → eqb_ℤ revision expected ≡ false
    → (is_negative other_bytes || is_negative other_revision) ≡ false
    → update_thumbnail_metadata id path expected bytes revision db ≡ ok (true, db')
    → (db'' : Db) × (update_thumbnail_metadata id path expected other_bytes other_revision db'
        ≡ ok (false, db''))
      × ((k : String) → find_tx k db'' ≡ find_tx k db')
unfolding update_thumbnail_metadata
update_thumbnail_metadata_fenced id path expected bytes revision other_bytes other_revision db db' u
      moved valid e =
    let q =
      λ (t : TransactionRow). is_stored_at path t && eqb_ℤ t.thumbnail_policy_revision expected in
    let p = λ (t : TransactionRow). str_eq t.id id && q t in
    let first = recorded id path expected bytes revision db db' e in
    let unique' : IsUnique tx_key db'.transactions = rw first.1 (
      update_where-IsUnique tx_key p (remeasure bytes revision) db.transactions
        (λ t. unfold remeasure in refl) u) in
    let row = recorded_row id path expected bytes revision db.transactions u moved first.0 in
    let here : find_tx id db' ≡ some row.0 = ap (find tx_key id) first.1 ∙ row.1 in
    let none_left : count_where p db'.transactions ≡ 0 =
      count-key tx_key id q db'.transactions unique' ∙ ground (arith, here, row.2) in
    let again = λ (k : String).
      find-update_key tx_key id q (remeasure other_bytes other_revision) k db'.transactions
        (λ t. unfold remeasure in refl) in
    (
      record db' {
        transactions = update_where p (remeasure other_bytes other_revision) db'.transactions;
      },
      rw (valid, none_left) refl,
      λ k.
          again k
          ∙ untouched q (remeasure other_bytes other_revision) (str_eq k id) (find_tx k db') row.0
              row.2 (λ e. ap (λ j. find_tx j db') ((str_eq_iff k id).0 e) ∙ here),
    )
