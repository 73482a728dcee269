-- ===== src/Store/Feed/Pages.antt =====
-- src/store.rs, `list_transactions_page` among the other calls of the store: the pages of one snapshot.
use square_uni_fi_protect_in.Common.{
  ℕ, ◌≡◌, refl, sym, ap, ◌∙◌, true, false, not, Option, none, some, List, [], ◌∷◌, length, String,
  ℤ, pos, arith, AppResult, AppResult-cases, ok, err, conflict, Bool-cases, Option-cases, ◌⊎◌, inl,
  inr, str_eq, str_is_empty,
}
use square_uni_fi_protect_in.Table.{first_where}
use square_uni_fi_protect_in.Schema.{Db, after}
use square_uni_fi_protect_in.Store.Steps.Consistency.{step-IsConsistent}
use square_uni_fi_protect_in.Store.Queue.{IsConsistent}
use square_uni_fi_protect_in.Store.Feed.{
  FeedFilter, FeedPage, to_count, transaction_filter, resume_snapshot, has_id, page_of, page_rows,
  list_transactions_page, first_page, next_page, expire_unused, is_bad_page, is_unfiltered,
}
use square_uni_fi_protect_in.Store.Feed.Facts.{FeedFacts, feed_facts, page_ids, page_ids-same}
use square_uni_fi_protect_in.Store.Feed.Shown.{Shows}
use square_uni_fi_protect_in.Store.Feed.Kept.{deleted-Shows, step-Shows, list_page-Shows}
use square_uni_fi_protect_in.Store.Feed.History.{
  FeedCall, changes, lists, feed_step, feed_run, HasOwnIds, feed_ids, listed, PagesAgree,
}
use square_uni_fi_protect_in.Store.Feed.Views.{
  delete_where-HasOwnIds, transaction_filter-signature, listed-entries, page_ids-feed,
  first_page-whole, first_where-view, whole_facts, page_or,
}

pub next_page-cases :
    (filter : FeedFilter × String) (limit offset id : ℤ) (now : ℕ) (db : Db)
    → (next_page filter limit offset id now db ≡ err conflict)
      ⊎ ((page : FeedPage) × (db' : Db) × (next_page filter limit offset id now db
            ≡ ok (page, db')))
unfolding next_page resume_snapshot
next_page-cases (f, signature) limit offset id now db =
    elim (Option-cases (first_where (has_id id) db.snapshots)) [
      | inl e ↦ inl (rw e refl)
      | inr (s, e) ↦ elim (Bool-cases (not (str_eq s.filter_signature signature))) [
        | inl bad ↦ inl (rw (e, bad) refl)
        | inr good ↦ elim (AppResult-cases (next_page (f, signature) limit offset id now db)) [
          | inl (x, failed) ↦ absurd (ground (arith, rw (e, good) at failed))
          | inr ((page, db'), served) ↦ inr (page, db', served)
        ]
      ]
    ]

module _ (keyed_hmac_hex : String → String → AppResult String) where
  list_page-tables :
      (limit offset : ℤ) (snapshot_id : Option ℤ) (query status : String) (now : ℕ) (db : Db)
      → let db' =
          after db
            (list_transactions_page keyed_hmac_hex limit offset snapshot_id query status now db) in
        (db'.transactions ≡ db.transactions) × (db'.retries ≡ db.retries)
  unfolding list_transactions_page first_page next_page
  list_page-tables limit offset snapshot_id query status now db =
      elim (Bool-cases (is_bad_page limit offset)) [
        | inl bad ↦ rw bad (refl, refl)
        | inr good ↦
            rw good (elim (AppResult-cases (transaction_filter keyed_hmac_hex query status)) [
              | inl (x, e) ↦ rw e (refl, refl)
              | inr (filter, e) ↦ rw e (page filter snapshot_id)
            ])
      ]
    where
      same : AppResult (FeedPage × Db) → Type 0
      same r = ((after db r).transactions ≡ db.transactions) × ((after db r).retries ≡ db.retries)

      page :
          (filter : FeedFilter × String) (sid : Option ℤ)
          → same (elim sid as (λ _. AppResult (FeedPage × Db)) [
            | none ↦ ok (first_page filter limit offset now (expire_unused now db))
            | some id ↦ next_page filter limit offset id now (expire_unused now db)
          ])
      page filter none = (refl, refl)
      page (f, sig) (some id) =
          elim (AppResult-cases (resume_snapshot id sig now (expire_unused now db).snapshots)) [
            | inl (x, e) ↦ rw e (refl, refl)
            | inr (r, e) ↦ rw e (refl, refl)
          ]

  feed_step-IsConsistent :
      (c : FeedCall) (db : Db) → IsConsistent db → IsConsistent (feed_step keyed_hmac_hex c db)
  unfolding feed_step
  feed_step-IsConsistent (changes c) db q = step-IsConsistent c db q
  feed_step-IsConsistent (lists limit offset sid query status now) db q =
      let e = list_page-tables limit offset sid query status now db in
      record {
        tx_unique = rw e.0 q.tx_unique;
        retry_unique = rw e.1 q.retry_unique;
        exact = λ id. rw (e.0, e.1) (q.exact id);
      }

  feed_run-Shows :
      (i boundary : ℕ) (signature : String) (shown : List FeedFacts) (calls : List FeedCall)
      (db : Db)
      → IsConsistent db
      → Shows i boundary signature shown db
      → Shows i boundary signature shown (feed_run keyed_hmac_hex calls db)
  unfolding feed_run
  feed_run-Shows i boundary signature shown [] db q h = h
  feed_run-Shows i boundary signature shown (c ∷ calls) db q h =
      feed_run-Shows i boundary signature shown calls (feed_step keyed_hmac_hex c db)
        (feed_step-IsConsistent c db q) (once c)
    where
      once : (c : FeedCall) → Shows i boundary signature shown (feed_step keyed_hmac_hex c db)
      once (changes c) = unfold feed_step in step-Shows i boundary signature shown c db q h
      once (lists limit offset sid query status now) =
          unfold feed_step in
          list_page-Shows i boundary signature shown keyed_hmac_hex limit offset sid query status
            now db h

  -- A page that goes on with a snapshot shows what the snapshot shows.
  next_page-same :
      (f : FeedFilter) (signature : String) (limit offset : ℤ) (i boundary now : ℕ) (old db : Db)
      (page : FeedPage) (db' : Db)
      → (not (is_unfiltered f) ≡ true → not (str_is_empty signature) ≡ true)
      → Shows i boundary signature (feed_facts (not (str_is_empty signature)) boundary old) db
      → next_page (f, signature) limit offset (pos i) now db ≡ ok (page, db')
      → (listed page ≡ page_ids f boundary (to_count limit) (to_count offset) old) × (page.1 ≡ i)
  unfolding next_page resume_snapshot
  next_page-same f signature limit offset i boundary now old db page db' filtered h e =
      elim (Option-cases (first_where (has_id (pos i)) db.snapshots)) [
        | inl none_left ↦ absurd (ground (arith, rw none_left at e))
        | inr (s, found) ↦
            let v = first_where-view i boundary signature db.snapshots s h.views found in
            let rows = h.rows v.0 in
            let same : page_of f limit offset s db ≡ page =
              elim (Bool-cases (not (str_eq s.filter_signature signature))) [
                | inl bad ↦ absurd (ground (arith, rw (found, bad) at e))
                | inr good ↦ ap (page_or page) (rw (found, good) at e)
              ] in
            (
              ap listed (sym same)
                  ∙ listed-entries db
                      (page_rows f s.rowid_boundary (to_count limit) (to_count offset) db)
                  ∙ ap (λ b. page_ids f b (to_count limit) (to_count offset) db) v.2
                  ∙ page_ids-same f (not (str_is_empty signature)) boundary (to_count limit)
                      (to_count offset) old db filtered rows.1,
              ap (λ (p : FeedPage). p.1) (sym same) ∙ v.1,
            )
      ]

  pub list_page-first :
      (query status : String) (limit offset : ℤ) (now : ℕ) (db : Db) (filter : FeedFilter × String)
      → is_bad_page limit offset ≡ false
      → transaction_filter keyed_hmac_hex query status ≡ ok filter
      → list_transactions_page keyed_hmac_hex limit offset none query status now db
        ≡ ok (first_page filter limit offset now (expire_unused now db))
  unfolding list_transactions_page
  list_page-first query status limit offset now db filter good e = rw (good, e) refl

  pub list_page-next :
      (query status : String) (limit offset id : ℤ) (now : ℕ) (db : Db)
      (filter : FeedFilter × String)
      → is_bad_page limit offset ≡ false
      → transaction_filter keyed_hmac_hex query status ≡ ok filter
      → list_transactions_page keyed_hmac_hex limit offset (some id) query status now db
        ≡ next_page filter limit offset id now (expire_unused now db)
  unfolding list_transactions_page
  list_page-next query status limit offset id now db filter good e = rw (good, e) refl

  first_page-IsConsistent :
      (filter : FeedFilter × String) (limit offset : ℤ) (now : ℕ) (db : Db)
      → IsConsistent db
      → IsConsistent (first_page filter limit offset now db).1
  unfolding first_page
  first_page-IsConsistent filter limit offset now db q = record {
    tx_unique = q.tx_unique;
    retry_unique = q.retry_unique;
    exact = q.exact;
  }

  -- For a valid range and filter, on a consistent database with snapshots under different ids: the first
  -- page is served and is a slice of the feed as it is. A page that goes on with its snapshot, after any
  -- calls and page requests in between, is refused with a conflict or is a slice of that same list of
  -- transactions.
  pub pages_agree :
      (query status : String) (limit offset limit' offset' : ℤ) (now now' : ℕ)
      (calls : List FeedCall) (db : Db) (f : FeedFilter) (signature : String)
      → IsConsistent db
      → HasOwnIds db.snapshot_sequence db.snapshots
      → is_bad_page limit offset ≡ false
      → is_bad_page limit' offset' ≡ false
      → transaction_filter keyed_hmac_hex query status ≡ ok (f, signature)
      → PagesAgree keyed_hmac_hex query status limit offset limit' offset' now now' calls db f
  unfolding feed_ids
  pages_agree query status limit offset limit' offset' now now' calls db f signature q own good
        good' e =
      let live = expire_unused now db in
      let first = first_page (f, signature) limit offset now live in
      let whole =
        first_page-whole f signature limit offset now live
          (delete_where-HasOwnIds db.snapshot_sequence _ db.snapshots own) in
      let b = length db.transactions in
      let kept =
        feed_run-Shows first.0.1 b signature (whole_facts signature live) calls first.1
          (first_page-IsConsistent (f, signature) limit offset now live
            (record { tx_unique = q.tx_unique; retry_unique = q.retry_unique; exact = q.exact }))
          whole.1 in
      let later = feed_run keyed_hmac_hex calls first.1 in
      let kept' = deleted-Shows first.0.1 b signature (whole_facts signature live) _ later kept in
      let next =
        list_page-next query status limit' offset' (pos first.0.1) now' later (f, signature) good'
          e in
      (
        first.0,
        first.1,
        list_page-first query status limit offset now db (f, signature) good e,
        whole.0,
        elim (next_page-cases (f, signature) limit' offset' (pos first.0.1) now'
            (expire_unused now' later)) [
              | inl refused ↦ inl (next ∙ refused)
              | inr (page', db'', served) ↦
                  let same =
                    next_page-same f signature limit' offset' first.0.1 b now' live
                      (expire_unused now' later) page' db''
                      (transaction_filter-signature keyed_hmac_hex query status f signature e) kept'
                      served in
                  inr (
                    page',
                    db'',
                    next ∙ served,
                    same.0 ∙ page_ids-feed f limit' offset' live,
                    same.1,
                  )
            ],
      )
