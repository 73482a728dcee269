-- ===== src/Store/Notes.antt =====
-- src/store.rs, `set_transaction_note`: clip notes with optimistic concurrency.
use square_uni_fi_protect_in.Common.{
  not, Option, none, some, String, ℤ, pos, ◌+ℤ◌, is_negative, eqb_ℤ, if◌then◌else◌, str_eq,
  str_is_empty, AppResult, ok, err, conflict, unprocessable, refuse_if, ◌>>◌,
}
use square_uni_fi_protect_in.Table.{update_where, delete_where}
use square_uni_fi_protect_in.Schema.{TransactionRow, Db, find_tx}
use square_uni_fi_protect_in.Store.Guards.{validate_note}

unfoldable pub write_note : String → String → ℤ → Db → Db
write_note id note revision db = record db {
  transactions =
      update_where (λ t. str_eq t.id id) (λ t. record t { note = note; note_revision = revision })
        db.transactions;
  snapshots = delete_where (λ s. not (str_is_empty s.filter_signature)) db.snapshots;
}

unfoldable pub edit_note :
    String → String → ℤ → Db → Option TransactionRow → AppResult (Option (String × ℤ) × Db)
edit_note id note expected db none = ok (none, db)
edit_note id note expected db (some t) =
    if not (eqb_ℤ t.note_revision expected)
    then err conflict
    else if str_eq t.note note
    then ok (some (t.note, t.note_revision), db)
    else ok
        (some (note, t.note_revision +ℤ pos 1), write_note id note (t.note_revision +ℤ pos 1) db)

unfoldable pub set_transaction_note :
    String → String → ℤ → Db → AppResult (Option (String × ℤ) × Db)
unfolding edit_note
set_transaction_note id note expected db = do
  validate_note note
  refuse_if (is_negative expected) unprocessable
  edit_note id note expected db (find_tx id db)
