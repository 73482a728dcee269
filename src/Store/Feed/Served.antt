-- ===== src/Store/Feed/Served.antt =====
-- A snapshot that was just used outlives the trimming and the half day after it.
use square_uni_fi_protect_in.Common.{
  ℕ, zero, suc, ◌+◌, ◌-◌, ◌≤◌, ◌≡◌, refl, ap, ◌∙◌, Bool, true, false, not, ◌&&◌, ◌==◌, ltb, leb,
  none, some, List, [], ◌∷◌, ◌++◌, any, drop, length, All, String, ℤ, pos, arith, AppResult, ok,
  Bool-cases, Option-cases, inl, inr, str_eq, str_eq_iff,
}
use square_uni_fi_protect_in.Table.{first_where, update_where, delete_where, select_where}
use square_uni_fi_protect_in.Schema.{FeedSnapshot, Db}
use square_uni_fi_protect_in.Store.Ordering.{order_by, any-order_by}
use square_uni_fi_protect_in.Store.Feed.{
  FeedFilter, FeedPage, has_id, is_same_view, is_fresher, max_snapshots, snapshot_ttl, new_snapshot,
  open_snapshot, resume_snapshot, trim_snapshots, first_page, next_page, expire_unused,
  transaction_filter, is_bad_page, list_transactions_page,
}
use square_uni_fi_protect_in.Store.Feed.Shown.{is_live, HasView}
use square_uni_fi_protect_in.Store.Feed.History.{HasOwnIds}
use square_uni_fi_protect_in.Store.Feed.Kept.{deleted-Shows}
use square_uni_fi_protect_in.Store.Feed.Views.{
  delete_where-HasOwnIds, first_page-whole, whole_facts,
}
use square_uni_fi_protect_in.Store.Feed.Pages.{next_page-cases, list_page-first, list_page-next}

-- A snapshot with the id that was used at a time or later.
abbrev is_used : ℕ → ℕ → FeedSnapshot → Bool
is_used i now s = s.id == i && leb now s.last_accessed_at

any-delete_where :
    (q p : FeedSnapshot → Bool) (rows : List FeedSnapshot)
    → ((s : FeedSnapshot) → q s ≡ true → p s ≡ false)
    → any q rows ≡ true
    → any q (delete_where p rows) ≡ true
unfolding delete_where
any-delete_where q p [] h e = absurd (cc)
any-delete_where q p (s ∷ rows) h e = ground (arith, e, h s, any-delete_where q p rows h)

any-drop :
    (q : FeedSnapshot → Bool) (n : ℕ) (rows : List FeedSnapshot)
    → any q rows ≡ false
    → any q (drop n rows) ≡ false
any-drop q zero rows e = e
any-drop q (suc n) [] e = refl
any-drop q (suc n) (s ∷ rows) e = any-drop q n rows (ground (arith, e))

any-others :
    (i : ℕ) (rows : List FeedSnapshot)
    → is_live i (select_where (λ s. not (s.id == i)) rows) ≡ false
unfolding select_where
any-others i [] = refl
any-others i (s ∷ rows) = ground (arith, any-others i rows)

trimmed-is_used :
    (i now : ℕ) (rows : List FeedSnapshot)
    → any (is_used i now) rows ≡ true
    → any (is_used i now) (trim_snapshots i rows) ≡ true
unfolding trim_snapshots
trimmed-is_used i now rows h =
    let others = select_where (λ (s : FeedSnapshot). not (s.id == i)) rows in
    let stale = drop (max_snapshots - 1) (order_by is_fresher others) in
    let spared : is_live i stale ≡ false =
      any-drop (λ (s : FeedSnapshot). s.id == i) (max_snapshots - 1) (order_by is_fresher others)
        (any-order_by is_fresher (λ (s : FeedSnapshot). s.id == i) others ∙ any-others i rows) in
    any-delete_where (is_used i now) (λ s. is_live s.id stale) rows
      (λ s used. ap (λ k. is_live k stale) (ground (arith, used)) ∙ spared) h

touched-is_used :
    (now : ℕ) (p : FeedSnapshot → Bool) (rows : List FeedSnapshot) (s : FeedSnapshot)
    → first_where p rows ≡ some s
    → any (is_used s.id now) (update_where p (λ x. record x { last_accessed_at = now }) rows) ≡ true
unfolding first_where update_where
touched-is_used now p [] s e = absurd (cc)
touched-is_used now p (x ∷ rows) s e = elim (Bool-cases (p x)) [
  | inl q ↦
      let same : x ≡ s = ground (arith, e, q) in
      rw q (ground (arith, ap (λ (y : FeedSnapshot). y.id) same))
  | inr q ↦ rw q (ground (arith, touched-is_used now p rows s (ground (arith, e, q))))
]

appended-is_used :
    (s : FeedSnapshot) (rows : List FeedSnapshot)
    → any (is_used s.id s.last_accessed_at) (rows ++ s ∷ []) ≡ true
appended-is_used s [] = ground arith
appended-is_used s (x ∷ rows) = ground (arith, appended-is_used s rows)

opened-is_used :
    (signature : String) (now : ℕ) (db : Db)
    → let r = open_snapshot signature now db in any (is_used r.0.id now) r.1 ≡ true
unfolding open_snapshot
opened-is_used signature now db =
    let p = is_same_view db.order_revision (length db.transactions) signature in
    elim (Option-cases (first_where p db.snapshots)) [
      | inl e ↦
          rw (e, open_snapshot) (appended-is_used (new_snapshot signature now db) db.snapshots)
      | inr (s, e) ↦ rw (e, open_snapshot) (touched-is_used now p db.snapshots s e)
    ]

expired-is_live :
    (i now now' : ℕ) (rows : List FeedSnapshot)
    → now' ≤ now + snapshot_ttl
    → any (is_used i now) rows ≡ true
    → is_live i
        (delete_where (λ (s : FeedSnapshot). ltb (s.last_accessed_at + snapshot_ttl) now') rows)
      ≡ true
unfolding delete_where
expired-is_live i now now' [] h e = absurd (cc)
expired-is_live i now now' (s ∷ rows) h e = ground (arith, h, e, expired-is_live i now now' rows h)

found-live :
    (i boundary : ℕ) (signature : String) (rows : List FeedSnapshot)
    → All (HasView i boundary signature) rows
    → is_live i rows ≡ true
    → (s : FeedSnapshot) × (first_where (has_id (pos i)) rows ≡ some s)
      × (s.filter_signature ≡ signature)
unfolding first_where
found-live i boundary signature [] h e = absurd (cc)
found-live i boundary signature (s ∷ rows) h e = elim (Bool-cases (has_id (pos i) s)) [
  | inl q ↦ (s, rw q refl, (h.0 (ground (arith, q))).1)
  | inr q ↦
      let rest = found-live i boundary signature rows h.1 (ground (arith, e, q)) in
      (rest.0, rw q rest.1, rest.2)
]

-- A live snapshot with the right filter is resumed.
next_page-served :
    (f : FeedFilter) (signature : String) (limit offset : ℤ) (i boundary now : ℕ) (db : Db)
    → All (HasView i boundary signature) db.snapshots
    → is_live i db.snapshots ≡ true
    → (page : FeedPage) × (db' : Db) × (next_page (f, signature) limit offset (pos i) now db
        ≡ ok (page, db'))
next_page-served f signature limit offset i boundary now db views live =
    elim (next_page-cases (f, signature) limit offset (pos i) now db) [
      | inl refused ↦
          let found = found-live i boundary signature db.snapshots views live in
          let fits : not (str_eq found.0.filter_signature signature) ≡ false =
            ground (arith, str_eq_iff found.0.filter_signature signature, found.2) in
          unfold next_page resume_snapshot in absurd (ground (arith, rw (found.1, fits) at refused))
      | inr served ↦ served
    ]

module _ (keyed_hmac_hex : String → String → AppResult String) where
  -- For a valid range and filter, with snapshots under different ids: the first page is served, and up to
  -- half a day later the page that goes on with its snapshot is served as well, if no call comes in between.
  pub next_page_served :
      (query status : String) (limit offset limit' offset' : ℤ) (now now' : ℕ) (db : Db)
      (filter : FeedFilter × String)
      → HasOwnIds db.snapshot_sequence db.snapshots
      → is_bad_page limit offset ≡ false
      → is_bad_page limit' offset' ≡ false
      → transaction_filter keyed_hmac_hex query status ≡ ok filter
      → now' ≤ now + snapshot_ttl
      → (page : FeedPage) × (db' : Db) × (page' : FeedPage) × (db'' : Db) × (list_transactions_page
            keyed_hmac_hex limit offset none query status now db
          ≡ ok (page, db'))
        × (list_transactions_page keyed_hmac_hex limit' offset'
              (some (pos page.1))
              query
              status
              now'
              db'
            ≡ ok (page', db''))
  unfolding first_page
  next_page_served query status limit offset limit' offset' now now' db (f, signature) own good
        good' e soon =
      let live = expire_unused now db in
      let first = first_page (f, signature) limit offset now live in
      let whole =
        first_page-whole f signature limit offset now live
          (delete_where-HasOwnIds db.snapshot_sequence _ db.snapshots own) in
      let b = length db.transactions in
      let left =
        deleted-Shows first.0.1 b signature (whole_facts signature live) _ first.1 whole.1 in
      let opened = open_snapshot signature now live in
      let used = trimmed-is_used opened.0.id now opened.1 (opened-is_used signature now live) in
      let served =
        next_page-served f signature limit' offset' first.0.1 b now' (expire_unused now' first.1)
          left.views (expired-is_live opened.0.id now now' first.1.snapshots soon used) in
      (
        first.0,
        first.1,
        served.0,
        served.1,
        list_page-first keyed_hmac_hex query status limit offset now db (f, signature) good e,
        list_page-next keyed_hmac_hex query status limit' offset' (pos first.0.1) now' first.1
              (f, signature) good' e
            ∙ served.2,
      )
