-- ===== src/Thumbnails/Files.antt =====
-- src/store.rs, `remove_orphan_thumbnails` and `thumbnail_summary`: the files without a transaction, and
-- the numbers of thumbnails. Operations on files succeed here.
use square_uni_fi_protect_in.Common.{
  ℕ, Bool, not, List, [], ◌∷◌, String, ℤ, pos, ◌+ℤ◌, if◌then◌else◌, any, opt_is, is_some, unwrap_or,
}
use square_uni_fi_protect_in.Table.{delete_where, count_where}
use square_uni_fi_protect_in.Schema.{TransactionRow, Db}
use square_uni_fi_protect_in.Store.Settings.{delete_settings}

-- Some transaction stores the file's name.
abbrev pub is_referenced : List TransactionRow → String → Bool
is_referenced rows name = any (λ t. opt_is t.thumbnail_path name) rows

unfoldable pub remove_orphan_thumbnails : Db → ℕ × Db
remove_orphan_thumbnails db =
    let p = λ (name : String). not (is_referenced db.transactions name) in
    (
      count_where p db.files,
      record db {
        files = delete_where p db.files;
        settings =
            delete_settings ("maintenance.orphan_thumbnail_cleanup_pending" ∷ []) db.settings;
      },
    )

-- COALESCE(SUM(COALESCE(thumbnail_bytes, 0)), 0) over the rows with a thumbnail.
unfoldable pub stored_bytes : List TransactionRow → ℤ
stored_bytes [] = pos 0
stored_bytes (t ∷ rows) =
    (if is_some t.thumbnail_path then unwrap_or t.thumbnail_bytes (pos 0) else pos 0)
    +ℤ stored_bytes rows

-- The active thumbnails, their bytes, and the retired ones.
unfoldable pub thumbnail_summary : Db → ℕ × ℤ × ℕ
thumbnail_summary db = (
  count_where (λ (t : TransactionRow). is_some t.thumbnail_path) db.transactions,
  stored_bytes db.transactions,
  count_where (λ (t : TransactionRow). is_some t.thumbnail_retired_at) db.transactions,
)
