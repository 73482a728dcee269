-- ===== src/Store/Feed.antt =====
-- src/store.rs: the pages of the transaction feed. Rows are never deleted one by one, so the rowid of a
-- transaction is its position in the table, from 1. The keyed hash of filters is a library's and a
-- parameter.
pub mod Search
pub mod Facts
pub mod Shown
pub mod Quiet
pub mod Updates
pub mod Writes
pub mod Kept
pub mod History
pub mod Views
pub mod Pages
pub mod Served
use square_uni_fi_protect_in.Common.{
  ℕ, ◌+◌, ◌*◌, ◌-◌, Bool, true, false, not, ◌&&◌, ◌||◌, Option, none, some, List, [], ◌∷◌, ◌++◌,
  map, String, ℤ, pos, negsuc, if◌then◌else◌, leb, ltb, ◌==◌, take, length, drop, any, codes,
  to_lower, str_eq, str_len, str_is_empty, upper_is, trim, eqb_ℤ, leb_ℤ, ltb_ℤ, AppResult, ok,
  unprocessable, conflict, refuse_if, ok_or, unwrap_or, ◌>>=◌, ◌>>◌,
}
use mathlib.Core.Option
use Prim.Native.String
use square_uni_fi_protect_in.Table.{first_where, update_where, delete_where, select_where}
use square_uni_fi_protect_in.Schema.{TransactionRow, FeedSnapshot, Db, second, find_retry}
use square_uni_fi_protect_in.Store.Guards.{has_forbidden_controls}
use square_uni_fi_protect_in.Store.Ordering.{order_by}

-- A pattern of SQL's LIKE, its escapes resolved.
pub data LikeToken : Type 0 where
  any_text any_char : LikeToken
  literal : ℕ → LikeToken

unfoldable pub like_tokens : List ℕ → List LikeToken
like_tokens [] = []
like_tokens (c ∷ []) =
    (if c == b'%' then any_text else if c == b'_' then any_char else literal c) ∷ []
like_tokens (c ∷ d ∷ cs) =
    let escaped = like_tokens cs in
    let rest = like_tokens (d ∷ cs) in
    if c == b'\\'
    then literal d ∷ escaped
    else (if c == b'%' then any_text else if c == b'_' then any_char else literal c) ∷ rest

abbrev pub any_suffix : (List ℕ → Bool) → List ℕ → Bool
any_suffix f [] = f []
any_suffix f (c ∷ cs) = f (c ∷ cs) || any_suffix f cs

-- LIKE folds ASCII letters.
unfoldable pub like : List LikeToken → List ℕ → Bool
like [] [] = true
like [] (c ∷ cs) = false
like (any_text ∷ tokens) cs = any_suffix (like tokens) cs
like (any_char ∷ tokens) [] = false
like (any_char ∷ tokens) (c ∷ cs) = like tokens cs
like (literal d ∷ tokens) [] = false
like (literal d ∷ tokens) (c ∷ cs) = to_lower d == to_lower c && like tokens cs

-- The three `replace` of the source make each of \, % and _ an escape of itself.
unfoldable pub escape : List ℕ → List ℕ
escape [] = []
escape (c ∷ cs) =
    if c == b'\\' || (c == b'%' || c == b'_') then b'\\' ∷ c ∷ escape cs else c ∷ escape cs

unfoldable pub search_pattern : String → List ℕ
search_pattern query = b'%' ∷ (escape (codes query) ++ b'%' ∷ [])

-- A filter: the search text and the status, both possibly empty.
pub record FeedFilter : Type 0 where
  pub query : String
  pub status : String

abbrev pub is_unfiltered : FeedFilter → Bool
is_unfiltered f = str_is_empty f.query && str_is_empty f.status

-- What a filter reads of a row.
abbrev pub searched_fields : TransactionRow → List String
searched_fields t =
    t.id ∷ t.card_last4 ∷ t.device_id ∷ t.device_name ∷ t.location_id ∷ t.status ∷ t.note ∷ []

-- The WHERE clause that `transaction_filter` builds.
unfoldable pub is_shown : FeedFilter → TransactionRow → Bool
is_shown f t =
    let tokens = like_tokens (search_pattern f.query) in
    (str_is_empty f.query || any (λ field. like tokens (codes field)) (searched_fields t))
    && (str_is_empty f.status || str_eq t.status f.status)

abbrev pub known_statuses : List String
known_statuses = "APPROVED" ∷ "PENDING" ∷ "COMPLETED" ∷ "CANCELED" ∷ "FAILED" ∷ []

-- `status.trim().to_ascii_uppercase()`, if it is empty or a known status.
unfoldable pub status_filter : String → Option String
status_filter status =
    let text = trim status in
    if str_is_empty text then some "" else first_where (upper_is text) known_statuses

-- The signature of a filter is empty just for the empty filter.
unfoldable pub transaction_filter :
    (String → String → AppResult String) → String → String → AppResult (FeedFilter × String)
transaction_filter keyed_hmac_hex query status = do
  let text = trim query
  refuse_if (ltb 64 (str_len text) || has_forbidden_controls text false) unprocessable
  known ← ok_or (status_filter status) unprocessable
  let f : FeedFilter = record { query = text; status = known }
  (if is_unfiltered f
      then ok (f, "")
      else keyed_hmac_hex text known >>= λ mac. ok (f, String.◌++◌ "hmac-sha256-v2:" mac))

-- Lexicographic order of texts, SQLite's BINARY collation.
unfoldable pub codes_leb : List ℕ → List ℕ → Bool
codes_leb [] ds = true
codes_leb (c ∷ cs) [] = false
codes_leb (c ∷ cs) (d ∷ ds) = ltb c d || (c == d && codes_leb cs ds)

-- ORDER BY ts_ms DESC, id DESC, on ids and times.
unfoldable pub is_listed_before : String → ℤ → String → ℤ → Bool
is_listed_before id ts id' ts' = ltb_ℤ ts' ts || (eqb_ℤ ts ts' && codes_leb (codes id') (codes id))

abbrev pub is_newer : TransactionRow → TransactionRow → Bool
is_newer t u = is_listed_before t.id t.ts_ms u.id u.ts_ms

-- TRANSACTION_SNAPSHOT_TTL_SECONDS and MAX_TRANSACTION_SNAPSHOTS.
abbrev pub snapshot_ttl : ℕ
snapshot_ttl = 43_200 * second

abbrev pub max_snapshots : ℕ
max_snapshots = 8

abbrev pub has_id : ℤ → FeedSnapshot → Bool
has_id id s = eqb_ℤ (pos s.id) id

-- The conflict target of the upsert: the same revision, boundary and filters.
abbrev pub is_same_view : ℕ → ℕ → String → FeedSnapshot → Bool
is_same_view revision boundary signature s =
    s.order_revision == revision
    && (s.rowid_boundary == boundary && str_eq s.filter_signature signature)

-- A page that goes on with a snapshot.
unfoldable pub resume_snapshot :
    ℤ → String → ℕ → List FeedSnapshot → AppResult (FeedSnapshot × List FeedSnapshot)
resume_snapshot id signature now snapshots = do
  s ← ok_or (first_where (has_id id) snapshots) conflict
  refuse_if (not (str_eq s.filter_signature signature)) conflict
  ok (s, update_where (has_id id) (λ x. record x { last_accessed_at = now }) snapshots)

-- The row that the INSERT offers.
abbrev pub new_snapshot : String → ℕ → Db → FeedSnapshot
new_snapshot signature now db = record {
  id = db.snapshot_sequence + 1;
  order_revision = db.order_revision;
  rowid_boundary = length db.transactions;
  filter_signature = signature;
  created_at = now;
  last_accessed_at = now;
}

-- A first page: the snapshot of the present view is found or made.
unfoldable pub open_snapshot : String → ℕ → Db → FeedSnapshot × List FeedSnapshot × ℕ
open_snapshot signature now db =
    let fresh = new_snapshot signature now db in
    let p = is_same_view db.order_revision (length db.transactions) signature in
    elim (first_where p db.snapshots) [
      | none ↦ (fresh, db.snapshots ++ fresh ∷ [], db.snapshot_sequence + 1)
      | some s ↦ (
        s,
        update_where p (λ x. record x { last_accessed_at = now }) db.snapshots,
        db.snapshot_sequence,
      )
    ]

-- ORDER BY last_accessed_at DESC, id DESC.
abbrev pub is_fresher : FeedSnapshot → FeedSnapshot → Bool
is_fresher a b =
    ltb b.last_accessed_at a.last_accessed_at
    || (a.last_accessed_at == b.last_accessed_at && leb b.id a.id)

-- All but the current snapshot and the seven used last are dropped.
unfoldable pub trim_snapshots : ℕ → List FeedSnapshot → List FeedSnapshot
trim_snapshots current snapshots =
    let others = select_where (λ s. not (s.id == current)) snapshots in
    let stale = drop (max_snapshots - 1) (order_by is_fresher others) in
    delete_where (λ s. any (λ x. x.id == s.id) stale) snapshots

-- The rows of a page, with the attempts of the LEFT JOIN.
unfoldable pub page_rows : FeedFilter → ℕ → ℕ → ℕ → Db → List TransactionRow
page_rows f boundary limit offset db =
    take limit
      (drop offset (order_by is_newer (select_where (is_shown f) (take boundary db.transactions))))

abbrev pub attempts_of : Db → TransactionRow → ℕ
attempts_of db t = unwrap_or (Option.map (λ r. r.attempts) (find_retry t.id db)) 0

-- `!(1..=500).contains(&limit) || !(0..=1_000_000).contains(&offset)`.
abbrev pub is_bad_page : ℤ → ℤ → Bool
is_bad_page limit offset =
    not (leb_ℤ (pos 1) limit && leb_ℤ limit (pos 500))
    || not (leb_ℤ (pos 0) offset && leb_ℤ offset (pos 1_000_000))

abbrev pub to_count : ℤ → ℕ
to_count (pos n) = n
to_count (negsuc n) = 0

abbrev pub FeedPage : Type 0
FeedPage = List (TransactionRow × ℕ) × ℕ

-- The rows of the page and the id of its snapshot.
abbrev pub page_of : FeedFilter → ℤ → ℤ → FeedSnapshot → Db → FeedPage
page_of f limit offset s db = (
  map (λ t. (t, attempts_of db t))
      (page_rows f s.rowid_boundary (to_count limit) (to_count offset) db),
  s.id,
)

-- Snapshots that were not used for half a day are deleted.
abbrev pub expire_unused : ℕ → Db → Db
expire_unused now db = record db {
  snapshots =
      delete_where (λ (s : FeedSnapshot). ltb (s.last_accessed_at + snapshot_ttl) now) db.snapshots;
}

unfoldable pub first_page : FeedFilter × String → ℤ → ℤ → ℕ → Db → FeedPage × Db
first_page (f, signature) limit offset now db =
    let opened = open_snapshot signature now db in
    (
      page_of f limit offset opened.0 db,
      record db { snapshots = trim_snapshots opened.0.id opened.1; snapshot_sequence = opened.2 },
    )

unfoldable pub next_page : FeedFilter × String → ℤ → ℤ → ℤ → ℕ → Db → AppResult (FeedPage × Db)
next_page (f, signature) limit offset id now db = do
  resumed ← resume_snapshot id signature now db.snapshots
  ok (
    page_of f limit offset resumed.0 db,
    record db { snapshots = trim_snapshots resumed.0.id resumed.1 },
  )

unfoldable pub list_transactions_page :
    (String → String → AppResult String)
    → ℤ
    → ℤ
    → Option ℤ
    → String
    → String
    → ℕ
    → Db
    → AppResult (FeedPage × Db)
list_transactions_page keyed_hmac_hex limit offset snapshot_id query status now db = do
  refuse_if (is_bad_page limit offset) unprocessable
  filter ← transaction_filter keyed_hmac_hex query status
  let live = expire_unused now db
  (elim snapshot_id [
    | none ↦ ok (first_page filter limit offset now live)
    | some id ↦ next_page filter limit offset id now live
  ])
