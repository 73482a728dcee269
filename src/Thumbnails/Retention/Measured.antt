-- ===== src/Thumbnails/Retention/Measured.antt =====
-- The bytes of the kept thumbnails against the total that the loops work with.
use square_uni_fi_protect_in.Common.{
  ℕ, ◌+◌, ◌≡◌, refl, sym, ap, ◌∙◌, Bool, true, not, ◌&&◌, ◌||◌, ◌==◌, List, [], ◌∷◌, String, ℤ, pos,
  ◌-ℤ◌, ◌≤ℤ◌, pos_part, max_ℤ, leb_ℤ, ◌⊎◌, any, All, All-mono, str_eq, opt_is, unwrap_or,
  if◌then◌else◌, ok, Bool-cases, inl, inr, arith,
}
use square_uni_fi_protect_in.Table.{update_where, count_where}
use square_uni_fi_protect_in.Schema.{TransactionRow, Db}
use square_uni_fi_protect_in.Store.Ordering.{weigh}
use square_uni_fi_protect_in.Store.Evidence.{
  RetirementOutcome, retired, skipped, retire_thumbnail, is_stored_at, expire,
}
use square_uni_fi_protect_in.Thumbnails.Retention.{
  ThumbnailAsset, asset_size, Sweep, account_retirement, sweep_age, sweep_quota,
}
use square_uni_fi_protect_in.Thumbnails.Retention.Covered.{
  is_kept, KeptPass, update-KeptPass, retire-rows,
}
use square_uni_fi_protect_in.Thumbnails.Retention.Swept.{always}

-- The size of a row's thumbnail; an unknown or negative size counts for nothing.
abbrev pub row_size : TransactionRow → ℕ
row_size t = pos_part (unwrap_or t.thumbnail_bytes (pos 0))

-- The bytes of the thumbnails that are kept.
abbrev pub kept_size : TransactionRow → ℕ
kept_size t = if is_kept t then row_size t else 0

abbrev pub kept_bytes : List TransactionRow → ℕ
kept_bytes rows = weigh kept_size rows

abbrev pub asset_bytes : ThumbnailAsset → ℕ
asset_bytes a = pos_part (unwrap_or a.bytes (pos 0))

pub asset_size-pos : (a : ThumbnailAsset) → asset_size a ≡ pos (asset_bytes a)
unfolding max_ℤ
asset_size-pos a = ground arith

-- An asset has the size of the kept thumbnail that it stands for.
abbrev pub agrees : ThumbnailAsset → TransactionRow → Bool
agrees a t = not (str_eq t.id a.id && opt_is t.thumbnail_path a.path) || row_size t == asset_bytes a

abbrev pub Agree : List ThumbnailAsset → List TransactionRow → Type 0
Agree assets rows = All (λ a. KeptPass (agrees a) rows) assets

update-Agree :
    (p : TransactionRow → Bool) (now_ms : ℤ) (reason : String) (assets : List ThumbnailAsset)
    (rows : List TransactionRow)
    → Agree assets rows
    → Agree assets (update_where p (expire now_ms reason) rows)
update-Agree p now_ms reason assets rows h =
    All-mono (λ a. KeptPass (agrees a) rows)
      (λ a. KeptPass (agrees a) (update_where p (expire now_ms reason) rows)) assets
      (λ a. update-KeptPass p (agrees a) now_ms reason rows) h

-- The update for an asset takes its size off for every row that it changes.
kept_bytes-expire :
    (a : ThumbnailAsset) (now_ms : ℤ) (reason : String) (rows : List TransactionRow)
    → KeptPass (agrees a) rows
    → let p = λ (t : TransactionRow). str_eq t.id a.id && is_stored_at a.path t in
      kept_bytes (update_where p (expire now_ms reason) rows)
        + weigh (λ t. if p t then asset_bytes a else 0) rows
      ≡ kept_bytes rows
unfolding update_where expire
kept_bytes-expire a now_ms reason [] h = refl
kept_bytes-expire a now_ms reason (t ∷ rows) h =
    let rest = kept_bytes-expire a now_ms reason rows h.1 in
    elim (Bool-cases (str_eq t.id a.id && is_stored_at a.path t)) [
      | inl e ↦
          let kept : is_kept t ≡ true = ground (arith, e) in
          let size : row_size t ≡ asset_bytes a = ground (arith, e, h.0 kept) in
          rw e (ground (arith, kept, size, rest))
      | inr e ↦ rw e (ground (arith, rest))
    ]

weigh-none :
    (p : TransactionRow → Bool) (n : ℕ) (rows : List TransactionRow)
    → count_where p rows ≡ 0
    → weigh (λ t. if p t then n else 0) rows ≡ 0
unfolding count_where
weigh-none p n [] e = refl
weigh-none p n (t ∷ rows) e = ground (arith, e, weigh-none p n rows)

weigh-once :
    (p : TransactionRow → Bool) (n : ℕ) (rows : List TransactionRow)
    → (count_where p rows == 1) ≡ true
    → weigh (λ t. if p t then n else 0) rows ≡ n
unfolding count_where
weigh-once p n [] e = cc
weigh-once p n (t ∷ rows) e = ground (arith, e, weigh-none p n rows, weigh-once p n rows)

-- The kept thumbnails fit into the total.
abbrev pub IsMeasured : Sweep → Type 0
IsMeasured s = pos (kept_bytes s.db.transactions) ≤ℤ s.total_bytes

retired_total :
    (a : ThumbnailAsset) (total : ℤ) (left kept : ℕ)
    → left + asset_bytes a ≡ kept
    → pos kept ≤ℤ total
    → pos left ≤ℤ total -ℤ asset_size a
unfolding ◌-ℤ◌
retired_total a total left kept e h = ground (arith, e, h, asset_size-pos a)

module _ (now_ms : ℤ) where
  measured_step :
      (reason : String) (a : ThumbnailAsset) (db : Db) (total : ℤ)
      → (str_eq reason "age" || str_eq reason "quota") ≡ true
      → KeptPass (agrees a) db.transactions
      → pos (kept_bytes db.transactions) ≤ℤ total
      → (o : RetirementOutcome) × (db' : Db) × (retire_thumbnail a.id a.path true now_ms reason db
          ≡ ok (o, db'))
        × ((others : List ThumbnailAsset)
            → Agree others db.transactions
            → Agree others db'.transactions)
        × (((o ≡ retired) × (pos (kept_bytes db'.transactions) ≤ℤ total -ℤ asset_size a))
            ⊎ ((o ≡ skipped) × (pos (kept_bytes db'.transactions) ≤ℤ total)))
  measured_step reason a db total good h fits =
      let r = retire-rows a.id a.path now_ms reason db good in
      let p = λ (t : TransactionRow). str_eq t.id a.id && is_stored_at a.path t in
      let shrunk = kept_bytes-expire a now_ms reason db.transactions h in
      (
        r.0,
        r.1,
        r.2,
        λ others g. rw r.3 (update-Agree p now_ms reason others db.transactions g),
        elim r.4 [
          | inl (e, once) ↦ inl (
            e,
            rw r.3 (
                retired_total a total _ (kept_bytes db.transactions)
                  (ap (λ n. kept_bytes (update_where p (expire now_ms reason) db.transactions) + n)
                      (sym (weigh-once p (asset_bytes a) db.transactions once))
                    ∙ shrunk)
                  fits),
          )
          | inr e ↦ inr (e, rw r.3 (ground (arith, shrunk, fits)))
        ],
      )

  -- The first loop keeps the total above the bytes that are kept.
  pub sweep_age-IsMeasured :
      (cutoff : ℤ) (others assets : List ThumbnailAsset) (s : Sweep)
      → Agree assets s.db.transactions
      → Agree others s.db.transactions
      → IsMeasured s
      → (r : Sweep) × (sweep_age always now_ms cutoff assets s ≡ ok r)
        × Agree others r.db.transactions
        × IsMeasured r
  unfolding sweep_age account_retirement
  sweep_age-IsMeasured cutoff others [] s h g m = (s, refl, g, m)
  sweep_age-IsMeasured cutoff others (a ∷ assets) s h g m =
      elim (Bool-cases (leb_ℤ cutoff a.ts_ms)) [
        | inl young ↦
            let r = sweep_age-IsMeasured cutoff others assets s h.1 g m in
            (r.0, rw (sweep_age, young) r.1, r.2, r.3)
        | inr old ↦
            let one = measured_step "age" a s.db s.total_bytes (unfold str_eq in refl) h.0 m in
            elim one.4 [
              | inl (e, fits) ↦
                  let s' = record s {
                    db = one.1;
                    retired_ids = a.id ∷ s.retired_ids;
                    total_bytes = s.total_bytes -ℤ asset_size a;
                    retired_count = s.retired_count + 1;
                  } in
                  let r =
                    sweep_age-IsMeasured cutoff others assets s' (one.3 assets h.1) (one.3 others g)
                      fits in
                  (r.0, rw (sweep_age, old, one.2, e) r.1, r.2, r.3)
              | inr (e, fits) ↦
                  let r =
                    sweep_age-IsMeasured cutoff others assets (record s { db = one.1 })
                      (one.3 assets h.1) (one.3 others g) fits in
                  (r.0, rw (sweep_age, old, one.2, e) r.1, r.2, r.3)
            ]
      ]

  -- So does the second loop.
  pub sweep_quota-IsMeasured :
      (quota : ℤ) (assets : List ThumbnailAsset) (s : Sweep)
      → Agree assets s.db.transactions
      → IsMeasured s
      → (r : Sweep) × (sweep_quota always now_ms quota assets s ≡ ok r) × IsMeasured r
  unfolding sweep_quota account_retirement
  sweep_quota-IsMeasured quota [] s h m = (s, refl, m)
  sweep_quota-IsMeasured quota (a ∷ assets) s h m = elim (Bool-cases (leb_ℤ s.total_bytes quota)) [
    | inl fits ↦ (s, rw (sweep_quota, fits) refl, m)
    | inr over ↦ elim (Bool-cases (any (λ id. str_eq id a.id) s.retired_ids)) [
      | inl gone ↦
          let r = sweep_quota-IsMeasured quota assets s h.1 m in
          (r.0, rw (sweep_quota, over, gone) r.1, r.2)
      | inr open_still ↦
          let one = measured_step "quota" a s.db s.total_bytes (unfold str_eq in refl) h.0 m in
          elim one.4 [
            | inl (e, fits) ↦
                let s' = record s {
                  db = one.1;
                  total_bytes = s.total_bytes -ℤ asset_size a;
                  retired_count = s.retired_count + 1;
                } in
                let r = sweep_quota-IsMeasured quota assets s' (one.3 assets h.1) fits in
                (r.0, rw (sweep_quota, over, open_still, one.2, e) r.1, r.2)
            | inr (e, fits) ↦
                let r =
                  sweep_quota-IsMeasured quota assets (record s { db = one.1 }) (one.3 assets h.1)
                    fits in
                (r.0, rw (sweep_quota, over, open_still, one.2, e) r.1, r.2)
          ]
    ]
  ]
