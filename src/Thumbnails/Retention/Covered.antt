-- ===== src/Thumbnails/Retention/Covered.antt =====
-- The rows that the loops have still to reach, and what one retirement does to them.
use square_uni_fi_protect_in.Common.{
  ◌≡◌, refl, sym, ap, ◌∙◌, Bool, true, false, not, ◌&&◌, ◌||◌, ◌==◌, none, some, List, [], ◌∷◌, map,
  String, ℤ, pos, eqb_ℤ, any, All, str_eq, str_eq_iff, str_eq_refl, str_eq_sym, opt_is, is_some,
  is_none, ok, Bool-cases, Option-cases, inl, inr, ◌⊎◌, arith,
}
use square_uni_fi_protect_in.Table.{
  find, IsUnique, count-key, update_where, count_where, select_where,
}
use square_uni_fi_protect_in.Schema.{TransactionRow, Db, tx_key}
use square_uni_fi_protect_in.Store.Ordering.{order_by, any-order_by}
use square_uni_fi_protect_in.Store.Evidence.{
  RetirementOutcome, retired, skipped, retire_thumbnail, is_stored_at, expire,
}
use square_uni_fi_protect_in.Store.RetryRows.{dequeue}
use square_uni_fi_protect_in.Store.Ingest.{delete_if_unreferenced}
use square_uni_fi_protect_in.Store.Settings.{write_plain_setting}
use square_uni_fi_protect_in.Thumbnails.Retention.{
  ThumbnailAsset, to_asset, is_older, list_thumbnail_assets,
}

-- The thumbnail of a row is kept: it is there and not retired.
abbrev pub is_kept : TransactionRow → Bool
is_kept t = is_some t.thumbnail_path && is_none t.thumbnail_retired_at

-- The asset stands for the row.
abbrev pub stands_for : TransactionRow → ThumbnailAsset → Bool
stands_for t a = str_eq t.id a.id && (opt_is t.thumbnail_path a.path && eqb_ℤ a.ts_ms t.ts_ms)

-- Every row with a kept thumbnail that passes the test is still to come.
abbrev pub IsCovered : (TransactionRow → Bool) → List ThumbnailAsset → List TransactionRow → Type 0
IsCovered test assets rows =
    All (λ t. (is_kept t && test t) ≡ true → any (stands_for t) assets ≡ true) rows

any-select :
    (p q : TransactionRow → Bool) (rows : List TransactionRow)
    → any (λ t. q t && p t) rows ≡ true
    → any q (select_where p rows) ≡ true
unfolding select_where
any-select p q [] h = cc
any-select p q (t ∷ rows) h = ground (arith, h, any-select p q rows)

any-map-asset :
    (q : ThumbnailAsset → Bool) (rows : List TransactionRow)
    → any q (map to_asset rows) ≡ any (λ t. q (to_asset t)) rows
any-map-asset q [] = refl
any-map-asset q (t ∷ rows) = ap (λ rest. q (to_asset t) || rest) (any-map-asset q rows)

own-asset :
    (t : TransactionRow)
    → is_some t.thumbnail_path ≡ true
    → (stands_for t (to_asset t) && is_some t.thumbnail_path) ≡ true
own-asset t h = elim (Option-cases t.thumbnail_path) [
  | inl e ↦ absurd (ground (arith, e, h))
  | inr (path, e) ↦ ground (arith, e, str_eq_refl t.id, str_eq_refl path)
]

-- At the start every row is covered.
pub start-IsCovered :
    (test : TransactionRow → Bool) (db : Db)
    → IsCovered test (list_thumbnail_assets db) db.transactions
unfolding list_thumbnail_assets
start-IsCovered test db = go db.transactions (λ t h. h)
  where
    assets : List ThumbnailAsset
    assets =
        map to_asset
          (order_by is_older (select_where (λ t. is_some t.thumbnail_path) db.transactions))

    listed :
        (t : TransactionRow)
        → any (λ u. stands_for t (to_asset u) && is_some u.thumbnail_path) db.transactions ≡ true
        → any (stands_for t) assets ≡ true
    listed t h =
        any-map-asset (stands_for t)
          (order_by is_older (select_where (λ t. is_some t.thumbnail_path) db.transactions))
        ∙ any-order_by is_older (λ u. stands_for t (to_asset u))
            (select_where (λ t. is_some t.thumbnail_path) db.transactions)
        ∙ any-select (λ t. is_some t.thumbnail_path) (λ u. stands_for t (to_asset u))
            db.transactions h

    go :
        (rows : List TransactionRow)
        → ((q : TransactionRow → Bool) → any q rows ≡ true → any q db.transactions ≡ true)
        → IsCovered test assets rows
    go [] sub = tt
    go (t ∷ rows) sub = (
      λ h. listed t (
          sub (λ u. stands_for t (to_asset u) && is_some u.thumbnail_path)
            (ground (arith, own-asset t (ground (arith, h))))),
      go rows (λ q h. sub q (ground (arith, h))),
    )

-- An asset whose rows fail the test is passed over.
pub passed-IsCovered :
    (test : TransactionRow → Bool) (a : ThumbnailAsset) (assets : List ThumbnailAsset)
    (rows : List TransactionRow)
    → ((t : TransactionRow) → stands_for t a ≡ true → test t ≡ false)
    → IsCovered test (a ∷ assets) rows
    → IsCovered test assets rows
passed-IsCovered test a assets [] fails h = tt
passed-IsCovered test a assets (t ∷ rows) fails h =
    (λ k. ground (arith, k, h.0, fails t), passed-IsCovered test a assets rows fails h.1)

module _ (p : TransactionRow → Bool) (now_ms : ℤ) (reason : String) (test : TransactionRow → Bool)
    (a : ThumbnailAsset) (assets : List ThumbnailAsset) where
  -- After the update for an asset the others cover what is left, if a row at the asset is no longer kept.
  pub updated-IsCovered :
      (rows : List TransactionRow)
      → ((t : TransactionRow) → is_kept t ≡ true → stands_for t a ≡ true → p t ≡ true)
      → IsCovered test (a ∷ assets) rows
      → IsCovered test assets (update_where p (expire now_ms reason) rows)
  unfolding update_where expire
  updated-IsCovered [] hit h = tt
  updated-IsCovered (t ∷ rows) hit h = elim (Bool-cases (p t)) [
    | inl e ↦ rw e (λ k. absurd (ground (arith, k)), updated-IsCovered rows hit h.1)
    | inr e ↦ rw e (λ k. ground (arith, k, h.0, hit t, e), updated-IsCovered rows hit h.1)
  ]

-- Every kept thumbnail passes the test.
abbrev pub KeptPass : (TransactionRow → Bool) → List TransactionRow → Type 0
KeptPass test rows = All (λ t. is_kept t ≡ true → test t ≡ true) rows

pub update-KeptPass :
    (p test : TransactionRow → Bool) (now_ms : ℤ) (reason : String) (rows : List TransactionRow)
    → KeptPass test rows
    → KeptPass test (update_where p (expire now_ms reason) rows)
unfolding update_where expire
update-KeptPass p test now_ms reason [] h = tt
update-KeptPass p test now_ms reason (t ∷ rows) h = elim (Bool-cases (p t)) [
  | inl e ↦ rw e (λ k. absurd (ground (arith, k)), update-KeptPass p test now_ms reason rows h.1)
  | inr e ↦ rw e (h.0, update-KeptPass p test now_ms reason rows h.1)
]

absent-KeptPass :
    (p : TransactionRow → Bool) (now_ms : ℤ) (reason k : String) (rows : List TransactionRow)
    → find tx_key k rows ≡ none
    → KeptPass (λ t. not (str_eq k t.id)) (update_where p (expire now_ms reason) rows)
unfolding find update_where expire
absent-KeptPass p now_ms reason k [] h = tt
absent-KeptPass p now_ms reason k (t ∷ rows) h = elim (Bool-cases (p t)) [
  | inl e ↦ rw e (
    λ kept. absurd (ground (arith, kept)),
    absent-KeptPass p now_ms reason k rows (ground (arith, h)),
  )
  | inr e ↦ rw e (
    λ kept. ground (arith, h, str_eq_sym k t.id),
    absent-KeptPass p now_ms reason k rows (ground (arith, h)),
  )
]

-- With unique ids, a transaction whose thumbnail was retired keeps none.
pub retired-KeptPass :
    (k : String) (q : TransactionRow → Bool) (now_ms : ℤ) (reason : String)
    (rows : List TransactionRow)
    → IsUnique tx_key rows
    → (count_where (λ (t : TransactionRow). str_eq t.id k && q t) rows == 1) ≡ true
    → KeptPass
        (λ t. not (str_eq k t.id))
        (update_where (λ (t : TransactionRow). str_eq t.id k && q t) (expire now_ms reason) rows)
unfolding update_where count_where expire
retired-KeptPass k q now_ms reason [] u c = absurd (ground (arith, c))
retired-KeptPass k q now_ms reason (t ∷ rows) u c = elim (Bool-cases (str_eq t.id k)) [
  | inl same ↦
      let absent : find tx_key k rows ≡ none =
        ap (λ j. find tx_key j rows) (sym ((str_eq_iff t.id k).0 same)) ∙ u.0 in
      let rest =
        absent-KeptPass (λ (x : TransactionRow). str_eq x.id k && q x) now_ms reason k rows
          absent in
      elim (Bool-cases (q t)) [
        | inl hit ↦ rw (same, hit) (λ kept. absurd (ground (arith, kept)), rest)
        | inr miss ↦ absurd (ground (arith, c, same, miss, count-key tx_key k q rows u.1, absent))
      ]
  | inr other ↦ rw other (
    λ kept. ground (arith, other, str_eq_sym k t.id),
    retired-KeptPass k q now_ms reason rows u.1 (ground (arith, c, other)),
  )
]

-- A retirement under the expected policy: the row at the asset, and only it, loses its thumbnail.
pub retire-rows :
    (k path : String) (now_ms : ℤ) (reason : String) (db : Db)
    → (str_eq reason "age" || str_eq reason "quota") ≡ true
    → (o : RetirementOutcome) × (db' : Db) × (retire_thumbnail k path true now_ms reason db
        ≡ ok (o, db'))
      × (db'.transactions
          ≡ update_where
              (λ (t : TransactionRow). str_eq t.id k && is_stored_at path t)
              (expire now_ms reason)
              db.transactions)
      × (((o ≡ retired)
            × ((count_where
                    (λ (t : TransactionRow). str_eq t.id k && is_stored_at path t)
                    db.transactions
                  == 1)
                ≡ true))
          ⊎ (o ≡ skipped))
unfolding retire_thumbnail
retire-rows k path now_ms reason db good =
    let p = λ (t : TransactionRow). str_eq t.id k && is_stored_at path t in
    let rows = update_where p (expire now_ms reason) db.transactions in
    let fine : not (str_eq reason "age" || str_eq reason "quota") ≡ false = ground (arith, good) in
    elim (Bool-cases (not (count_where p db.transactions == 1))) [
      | inl c ↦ (
        skipped,
        record db { transactions = rows },
        rw (retire_thumbnail, fine, c) refl,
        refl,
        inr refl,
      )
      | inr c ↦ (
        retired,
        record db {
          transactions = rows;
          retries = dequeue k db.retries;
          settings =
              write_plain_setting "maintenance.orphan_thumbnail_cleanup_pending" (pos 1)
                db.settings;
          files = delete_if_unreferenced (some path) rows db.files;
        },
        rw (retire_thumbnail, fine, c) refl,
        refl,
        inl (refl, ground (arith, c)),
      )
    ]
