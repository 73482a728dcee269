-- ===== src/Store/Feed/Views.antt =====
-- The snapshot of a first page stands for the whole feed, and its id for no other view.
use Prim.Native.String
use Prim.Native.String.{len}
use text.Mathlib.TextPositions.{len-append}
use square_uni_fi_protect_in.Common.{
  ℕ, ◌+◌, ◌≡◌, ◌≤◌, refl, sym, ap, ◌∙◌, Bool, true, false, not, ◌==◌, some, List, [], ◌∷◌, map,
  take, length, All, String, ℤ, pos, arith, AppResult, AppResult-cases, ok, err, Bool-cases,
  Option-cases, inl, inr, str_eq_iff, str_is_empty, trim, str_is_empty_iff,
}
use square_uni_fi_protect_in.Table.{first_where, delete_where, first_where-holds}
use square_uni_fi_protect_in.Schema.{TransactionRow, FeedSnapshot, Db}
use square_uni_fi_protect_in.Store.Feed.{
  FeedFilter, FeedPage, to_count, transaction_filter, status_filter, open_snapshot, trim_snapshots,
  is_same_view, has_id, page_rows, attempts_of, first_page, is_unfiltered, new_snapshot,
}
use square_uni_fi_protect_in.Store.Feed.Facts.{FeedFacts, feed_facts, page_ids, map-take, map-drop}
use square_uni_fi_protect_in.Store.Feed.Shown.{
  is_live, HasView, Shows, delete_where-All, is_live-delete,
}
use square_uni_fi_protect_in.Store.Feed.Kept.{touched-views, appended-views}
use square_uni_fi_protect_in.Store.Feed.History.{HasOwnIds, feed_ids, listed, slice}

pub delete_where-HasOwnIds :
    (n : ℕ) (p : FeedSnapshot → Bool) (rows : List FeedSnapshot)
    → HasOwnIds n rows
    → HasOwnIds n (delete_where p rows)
unfolding delete_where
delete_where-HasOwnIds n p [] h = tt
delete_where-HasOwnIds n p (s ∷ rows) h = elim (Bool-cases (p s)) [
  | inl e ↦ rw e (delete_where-HasOwnIds n p rows h.2)
  | inr e ↦
      rw e
        (h.0, ground (arith, h.1, is_live-delete s.id p rows), delete_where-HasOwnIds n p rows h.2)
]

first_where-id-le :
    (n : ℕ) (p : FeedSnapshot → Bool) (rows : List FeedSnapshot) (s : FeedSnapshot)
    → HasOwnIds n rows
    → first_where p rows ≡ some s
    → s.id ≤ n
unfolding first_where
first_where-id-le n p [] s h e = absurd (cc)
first_where-id-le n p (x ∷ rows) s h e = elim (Bool-cases (p x)) [
  | inl q ↦
      let same : x ≡ s = ground (arith, e, q) in rw (ap (λ (y : FeedSnapshot). y.id) (sym same)) h.0
  | inr q ↦ first_where-id-le n p rows s h.2 (ground (arith, e, q))
]

dead-views :
    (i boundary : ℕ) (signature : String) (rows : List FeedSnapshot)
    → is_live i rows ≡ false
    → All (HasView i boundary signature) rows
dead-views i boundary signature [] h = tt
dead-views i boundary signature (s ∷ rows) h = (
  λ same. absurd (ground (arith, same, h)),
  dead-views i boundary signature rows (ground (arith, h)),
)

-- An id stands for one view.
first_where-views :
    (n : ℕ) (p : FeedSnapshot → Bool) (rows : List FeedSnapshot) (s : FeedSnapshot)
    → HasOwnIds n rows
    → first_where p rows ≡ some s
    → All (HasView s.id s.rowid_boundary s.filter_signature) rows × (is_live s.id rows ≡ true)
unfolding first_where
first_where-views n p [] s h e = absurd (cc)
first_where-views n p (x ∷ rows) s h e = elim (Bool-cases (p x)) [
  | inl q ↦
      let same : x ≡ s = ground (arith, e, q) in
      let dead = ap (λ (y : FeedSnapshot). is_live y.id rows) (sym same) ∙ h.1 in
      (
        (
          λ i. (ap (λ y. y.rowid_boundary) same, ap (λ y. y.filter_signature) same),
          dead-views s.id s.rowid_boundary s.filter_signature rows dead,
        ),
        ground (arith, ap (λ y. y.id) same),
      )
  | inr q ↦
      let found = first_where-views n p rows s h.2 (ground (arith, e, q)) in
      (
        (λ same. absurd (ground (arith, same, h.1, found.1, ap (λ k. is_live k rows))), found.0),
        ground (arith, found.1),
      )
]

fresh-dead : (n : ℕ) (rows : List FeedSnapshot) → HasOwnIds n rows → is_live (n + 1) rows ≡ false
fresh-dead n [] h = refl
fresh-dead n (s ∷ rows) h = ground (arith, h.0, fresh-dead n rows h.2)

prefix_len : len "hmac-sha256-v2:" ≡ 15
prefix_len = refl

empty_len : len "" ≡ 0
empty_len = refl

prefixed : (mac : String) → str_is_empty (String.◌++◌ "hmac-sha256-v2:" mac) ≡ false
prefixed mac =
    let text = String.◌++◌ "hmac-sha256-v2:" mac in
    elim (Bool-cases (str_is_empty text)) [
      | inl e ↦ absurd (
          omega (
            arith,
            ap len ((str_is_empty_iff text).0 e),
            len-append "hmac-sha256-v2:" mac,
            prefix_len,
            empty_len,
          ))
      | inr e ↦ e
    ]

module _ (keyed_hmac_hex : String → String → AppResult String) where
  -- The filter's signature is empty just for the empty filter.
  pub transaction_filter-signature :
      (query status : String) (f : FeedFilter) (signature : String)
      → transaction_filter keyed_hmac_hex query status ≡ ok (f, signature)
      → not (is_unfiltered f) ≡ true
      → not (str_is_empty signature) ≡ true
  unfolding transaction_filter
  transaction_filter-signature query status f signature e h =
      elim (Option-cases (status_filter status)) [
        | inl k ↦ ground (arith, e, h, k)
        | inr (known, k) ↦ elim (AppResult-cases (keyed_hmac_hex (trim query) known)) [
          | inl (x, m) ↦ ground (arith, e, h, k, m)
          | inr (mac, m) ↦ ground (arith, e, h, k, m, prefixed mac)
        ]
      ]

take-all : (rows : List TransactionRow) → take (length rows) rows ≡ rows
take-all [] = refl
take-all (t ∷ rows) = ap (λ rest. t ∷ rest) (take-all rows)

pub listed-entries :
    (db : Db) (rows : List TransactionRow)
    → map (λ (entry : TransactionRow × ℕ). entry.0.id) (map (λ t. (t, attempts_of db t)) rows)
      ≡ map (λ t. t.id) rows
listed-entries db [] = refl
listed-entries db (t ∷ rows) = ap (λ rest. t.id ∷ rest) (listed-entries db rows)

-- A page up to the end of the table is a slice of the whole feed.
pub page_ids-feed :
    (f : FeedFilter) (limit offset : ℤ) (db : Db)
    → page_ids f (length db.transactions) (to_count limit) (to_count offset) db
      ≡ slice limit offset (feed_ids f db)
unfolding page_rows feed_ids
page_ids-feed f limit offset db = rw (take-all db.transactions) (
    map-take (λ (t : TransactionRow). t.id) (to_count limit) _
    ∙ ap (take (to_count limit)) (map-drop (λ (t : TransactionRow). t.id) (to_count offset) _))

-- The facts that the whole feed shows.
abbrev pub whole_facts : String → Db → List FeedFacts
whole_facts signature db = feed_facts (not (str_is_empty signature)) (length db.transactions) db

-- The snapshot of a first page shows the feed as it is.
opened-whole :
    (signature : String) (now : ℕ) (db : Db)
    → HasOwnIds db.snapshot_sequence db.snapshots
    → let r = open_snapshot signature now db in
      (r.0.rowid_boundary ≡ length db.transactions)
      × (r.0.id ≤ r.2)
      × All (HasView r.0.id (length db.transactions) signature) r.1
unfolding open_snapshot
opened-whole signature now db own =
    let p = is_same_view db.order_revision (length db.transactions) signature in
    elim (Option-cases (first_where p db.snapshots)) [
      | inl e ↦
          let s = new_snapshot signature now db in
          rw (e, open_snapshot)
            (
              refl,
              omega arith,
              appended-views s.id s.rowid_boundary s.filter_signature [] s db.snapshots
                  (λ same. (refl, refl))
                  (dead-views s.id s.rowid_boundary s.filter_signature db.snapshots
                    (fresh-dead db.snapshot_sequence db.snapshots own)),
            )
      | inr (s, e) ↦
          let holds = first_where-holds p db.snapshots s e in
          let views = first_where-views db.snapshot_sequence p db.snapshots s own e in
          let boundary : s.rowid_boundary ≡ length db.transactions = ground (arith, holds) in
          let same : s.filter_signature ≡ signature =
            (str_eq_iff s.filter_signature signature).0 (ground (arith, holds)) in
          rw (e, open_snapshot)
            (
              boundary,
              first_where-id-le db.snapshot_sequence p db.snapshots s own e,
              touched-views s.id (length db.transactions) signature [] p now db.snapshots
                  (rw (boundary, same) at views.0),
            )
    ]

pub first_where-view :
    (i boundary : ℕ) (signature : String) (rows : List FeedSnapshot) (s : FeedSnapshot)
    → All (HasView i boundary signature) rows
    → first_where (has_id (pos i)) rows ≡ some s
    → (is_live i rows ≡ true) × (s.id ≡ i) × (s.rowid_boundary ≡ boundary)
unfolding first_where
first_where-view i boundary signature [] s h e = absurd (cc)
first_where-view i boundary signature (x ∷ rows) s h e = elim (Bool-cases (has_id (pos i) x)) [
  | inl q ↦
      let same : x ≡ s = ground (arith, e, q) in
      let hit : x.id == i ≡ true = ground (arith, q) in
      (
        ground (arith, hit),
        ap (λ y. y.id) (sym same) ∙ ground (arith, hit),
        ap (λ y. y.rowid_boundary) (sym same) ∙ (h.0 hit).0,
      )
  | inr q ↦
      let rest = first_where-view i boundary signature rows s h.1 (ground (arith, e, q)) in
      (ground (arith, rest.0), rest.1, rest.2)
]

abbrev pub page_or : FeedPage → AppResult (FeedPage × Db) → FeedPage
page_or page (ok (p, db)) = p
page_or page (err e) = page

-- The first page: a slice of the feed, and a snapshot that shows the whole of it.
pub first_page-whole :
    (f : FeedFilter) (signature : String) (limit offset : ℤ) (now : ℕ) (db : Db)
    → HasOwnIds db.snapshot_sequence db.snapshots
    → let r = first_page (f, signature) limit offset now db in
      (listed r.0 ≡ slice limit offset (feed_ids f db))
      × Shows r.0.1 (length db.transactions) signature (whole_facts signature db) r.1
unfolding first_page trim_snapshots
first_page-whole f signature limit offset now db own =
    let opened = open_snapshot signature now db in
    let w = opened-whole signature now db own in
    (
      listed-entries db (page_rows f opened.0.rowid_boundary (to_count limit) (to_count offset) db)
          ∙ ap (λ b. page_ids f b (to_count limit) (to_count offset) db) w.0
          ∙ page_ids-feed f limit offset db,
      record {
        issued = w.1;
        views =
            delete_where-All (HasView opened.0.id (length db.transactions) signature) _ opened.1
              w.2;
        rows = λ live. (omega arith, refl);
      },
    )
