-- ===== src/Store/Feed/History.antt =====
-- src/store.rs: the calls of the store and the requests of pages in one sequence, and what a page lists.
use square_uni_fi_protect_in.Common.{
  ℕ, ◌≡◌, ◌≤◌, false, Option, none, some, List, [], ◌∷◌, map, drop, take, String, ℤ, pos, AppResult,
  ok, err, conflict, ◌⊎◌,
}
use square_uni_fi_protect_in.Table.{select_where}
use square_uni_fi_protect_in.Schema.{TransactionRow, FeedSnapshot, Db, after}
use square_uni_fi_protect_in.Store.Ordering.{order_by}
use square_uni_fi_protect_in.Store.Steps.{Call, step}
use square_uni_fi_protect_in.Store.Feed.{
  FeedFilter, FeedPage, is_shown, is_newer, to_count, list_transactions_page,
}
use square_uni_fi_protect_in.Store.Feed.Shown.{is_live}

-- A call of the store, or the request of a page.
pub data FeedCall : Type 0 where
  changes : Call → FeedCall
  lists : ℤ → ℤ → Option ℤ → String → String → ℕ → FeedCall

module _ (keyed_hmac_hex : String → String → AppResult String) where
  unfoldable pub feed_step : FeedCall → Db → Db
  feed_step (changes c) db = step c db
  feed_step (lists limit offset snapshot_id query status now) db =
      after db (list_transactions_page keyed_hmac_hex limit offset snapshot_id query status now db)

  unfoldable pub feed_run : List FeedCall → Db → Db
  unfolding feed_step
  feed_run [] db = db
  feed_run (c ∷ calls) db = feed_run calls (feed_step c db)

-- Snapshots have different ids, none beyond the sequence: the table's AUTOINCREMENT key.
abbrev pub HasOwnIds : ℕ → List FeedSnapshot → Type 0
HasOwnIds n [] = Unit
HasOwnIds n (s ∷ rows) = (s.id ≤ n) × (is_live s.id rows ≡ false) × HasOwnIds n rows

-- The ids of a filtered feed, newest first.
unfoldable pub feed_ids : FeedFilter → Db → List String
feed_ids f db =
    map (λ (t : TransactionRow). t.id)
      (order_by is_newer (select_where (is_shown f) db.transactions))

-- The ids on a page.
abbrev pub listed : FeedPage → List String
listed page = map (λ (entry : TransactionRow × ℕ). entry.0.id) page.0

-- The part of a list that a limit and an offset cut out.
abbrev pub slice : ℤ → ℤ → List String → List String
slice limit offset ids = take (to_count limit) (drop (to_count offset) ids)

-- The first page is served, as a slice of the feed; a later page of its snapshot is refused with a
-- conflict, or served as a slice of the same list.
abbrev pub PagesAgree :
    (String → String → AppResult String)
    → String
    → String
    → ℤ
    → ℤ
    → ℤ
    → ℤ
    → ℕ
    → ℕ
    → List FeedCall
    → Db
    → FeedFilter
    → Type 0
PagesAgree keyed_hmac_hex query status limit offset limit' offset' now now' calls db f =
    (page : FeedPage) × (db' : Db) × (list_transactions_page keyed_hmac_hex limit offset none query
        status now db
      ≡ ok (page, db'))
    × (listed page ≡ slice limit offset (feed_ids f db))
    × (let next =
          list_transactions_page keyed_hmac_hex limit' offset' (some (pos page.1)) query status now'
            (feed_run keyed_hmac_hex calls db') in
        (next ≡ err conflict)
        ⊎ ((page' : FeedPage) × (db'' : Db) × (next ≡ ok (page', db''))
            × (listed page' ≡ slice limit' offset' (feed_ids f db))
            × (page'.1 ≡ page.1)))
