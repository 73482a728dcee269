-- ===== src/Thumbnails/Retention/Swept.antt =====
-- What the two loops leave: no old thumbnail after the first, and after the second either a total
-- within the quota or no thumbnail at all.
use square_uni_fi_protect_in.Common.{
  ◌+◌, ◌≡◌, refl, sym, ap, ◌∙◌, Bool, true, false, not, ◌&&◌, ◌||◌, List, [], ◌∷◌, String, ℤ, ◌-ℤ◌,
  leb_ℤ, ltb_ℤ, any, All, str_eq, str_eq_iff, ok, Bool-cases, inl, inr, ◌⊎◌, arith,
}
use square_uni_fi_protect_in.Table.{IsUnique}
use square_uni_fi_protect_in.Schema.{TransactionRow, Db, tx_key}
use square_uni_fi_protect_in.Store.Evidence.{
  RetirementOutcome, retired, skipped, retire_thumbnail, is_stored_at,
}
use square_uni_fi_protect_in.Store.Queue.{IsConsistent}
use square_uni_fi_protect_in.Store.Steps.{step, retires}
use square_uni_fi_protect_in.Store.Steps.Consistency.{step-IsConsistent}
use square_uni_fi_protect_in.Thumbnails.Retention.{
  ThumbnailAsset, asset_size, Sweep, account_retirement, sweep_age, sweep_quota,
}
use square_uni_fi_protect_in.Thumbnails.Retention.Covered.{
  is_kept, IsCovered, KeptPass, passed-IsCovered, updated-IsCovered, update-KeptPass,
  retired-KeptPass, retire-rows,
}

-- Nothing is left to cover once the assets have run out.
uncovered :
    (test : TransactionRow → Bool) (rows : List TransactionRow)
    → IsCovered test [] rows
    → All (λ t. is_kept t ≡ true → test t ≡ false) rows
uncovered test [] h = tt
uncovered test (t ∷ rows) h = (λ k. ground (arith, k, h.0), uncovered test rows h.1)

-- The first loop did not retire the row.
abbrev pub is_left : List String → TransactionRow → Bool
is_left ids t = not (any (λ id. str_eq id t.id) ids)

left-cons :
    (k : String) (ids : List String) (rows : List TransactionRow)
    → KeptPass (λ t. not (str_eq k t.id)) rows
    → KeptPass (is_left ids) rows
    → KeptPass (is_left (k ∷ ids)) rows
left-cons k ids [] g h = tt
left-cons k ids (t ∷ rows) g h =
    (λ kept. ground (arith, g.0 kept, h.0 kept), left-cons k ids rows g.1 h.1)

-- Both at once: no thumbnail is kept.
none-kept :
    (ids : List String) (rows : List TransactionRow)
    → KeptPass (is_left ids) rows
    → All (λ t. is_kept t ≡ true → is_left ids t ≡ false) rows
    → All (λ t. is_kept t ≡ false) rows
none-kept ids [] g h = tt
none-kept ids (t ∷ rows) g h = (ground (arith, g.0, h.0), none-kept ids rows g.1 h.1)

-- No switch of the policy comes in between.
abbrev pub always : ThumbnailAsset → Bool
always a = true

module _ (now_ms : ℤ) where
  retired-step :
      (reason : String) (test : TransactionRow → Bool) (a : ThumbnailAsset)
      (assets : List ThumbnailAsset) (db : Db)
      → (str_eq reason "age" || str_eq reason "quota") ≡ true
      → IsCovered test (a ∷ assets) db.transactions
      → (o : RetirementOutcome) × (db' : Db) × (retire_thumbnail a.id a.path true now_ms reason db
          ≡ ok (o, db'))
        × IsCovered test assets db'.transactions
        × (IsConsistent db → IsConsistent db')
        × ((other : TransactionRow → Bool)
            → KeptPass other db.transactions
            → KeptPass other db'.transactions)
        × (((o ≡ retired)
              × (IsUnique tx_key db.transactions
                  → KeptPass (λ t. not (str_eq a.id t.id)) db'.transactions))
            ⊎ (o ≡ skipped))
  retired-step reason test a assets db good h =
      let r = retire-rows a.id a.path now_ms reason db good in
      let p = λ (t : TransactionRow). str_eq t.id a.id && is_stored_at a.path t in
      (
        r.0,
        r.1,
        r.2,
        rw r.3 (
            updated-IsCovered p now_ms reason test a assets db.transactions
              (λ t k e. ground (arith, k, e)) h),
        λ q.
            (unfold step in
              rw r.2 at (step-IsConsistent (retires a.id a.path true now_ms reason) db q)),
        λ other keep. rw r.3 (update-KeptPass p other now_ms reason db.transactions keep),
        elim r.4 [
          | inl c ↦ inl (
            c.0,
            λ u.
                rw r.3
                  (retired-KeptPass a.id (is_stored_at a.path) now_ms reason db.transactions u c.1),
          )
          | inr e ↦ inr e
        ],
      )

  pub sweep_age-swept :
      (cutoff : ℤ) (keep : TransactionRow → Bool) (assets : List ThumbnailAsset) (s : Sweep)
      → IsCovered (λ t. ltb_ℤ t.ts_ms cutoff) assets s.db.transactions
      → IsConsistent s.db
      → KeptPass (is_left s.retired_ids) s.db.transactions
      → KeptPass keep s.db.transactions
      → (r : Sweep) × (sweep_age always now_ms cutoff assets s ≡ ok r)
        × All (λ t. is_kept t ≡ true → ltb_ℤ t.ts_ms cutoff ≡ false) r.db.transactions
        × IsConsistent r.db
        × (r.policy_changed ≡ s.policy_changed)
        × KeptPass (is_left r.retired_ids) r.db.transactions
        × KeptPass keep r.db.transactions
  unfolding sweep_age account_retirement
  sweep_age-swept cutoff keep [] s h q g k =
      (s, refl, uncovered (λ t. ltb_ℤ t.ts_ms cutoff) s.db.transactions h, q, refl, g, k)
  sweep_age-swept cutoff keep (a ∷ assets) s h q g k = elim (Bool-cases (leb_ℤ cutoff a.ts_ms)) [
    | inl young ↦
        let r =
          sweep_age-swept cutoff keep assets s
            (passed-IsCovered (λ t. ltb_ℤ t.ts_ms cutoff) a assets s.db.transactions
              (λ t e. ground (arith, e, young)) h)
            q g k in
        (r.0, rw (sweep_age, young) r.1, r.2, r.3, r.4, r.5, r.6)
    | inr old ↦
        let one =
          retired-step "age" (λ t. ltb_ℤ t.ts_ms cutoff) a assets s.db (unfold str_eq in refl) h in
        elim one.6 [
          | inl (e, gone) ↦
              let s' = record s {
                db = one.1;
                retired_ids = a.id ∷ s.retired_ids;
                total_bytes = s.total_bytes -ℤ asset_size a;
                retired_count = s.retired_count + 1;
              } in
              let r =
                sweep_age-swept cutoff keep assets s' one.3 (one.4 q)
                  (left-cons a.id s.retired_ids one.1.transactions (gone q.tx_unique)
                    (one.5 (is_left s.retired_ids) g))
                  (one.5 keep k) in
              (r.0, rw (sweep_age, old, one.2, e) r.1, r.2, r.3, r.4, r.5, r.6)
          | inr e ↦
              let r =
                sweep_age-swept cutoff keep assets (record s { db = one.1 }) one.3 (one.4 q)
                  (one.5 (is_left s.retired_ids) g) (one.5 keep k) in
              (r.0, rw (sweep_age, old, one.2, e) r.1, r.2, r.3, r.4, r.5, r.6)
        ]
  ]

  pub sweep_quota-swept :
      (quota : ℤ) (keep : TransactionRow → Bool) (assets : List ThumbnailAsset) (s : Sweep)
      (ids : List String)
      → s.retired_ids ≡ ids
      → IsCovered (is_left ids) assets s.db.transactions
      → IsConsistent s.db
      → KeptPass (is_left ids) s.db.transactions
      → KeptPass keep s.db.transactions
      → (r : Sweep) × (sweep_quota always now_ms quota assets s ≡ ok r)
        × ((leb_ℤ r.total_bytes quota ≡ true) ⊎ All (λ t. is_kept t ≡ false) r.db.transactions)
        × IsConsistent r.db
        × KeptPass keep r.db.transactions
  unfolding sweep_quota account_retirement
  sweep_quota-swept quota keep [] s ids same h q g k = (
    s,
    refl,
    inr (none-kept ids s.db.transactions g (uncovered (is_left ids) s.db.transactions h)),
    q,
    k,
  )
  sweep_quota-swept quota keep (a ∷ assets) s ids same h q g k =
      let test = is_left ids in
      elim (Bool-cases (leb_ℤ s.total_bytes quota)) [
        | inl fits ↦ (s, rw (sweep_quota, fits) refl, inl fits, q, k)
        | inr over ↦ elim (Bool-cases (any (λ id. str_eq id a.id) s.retired_ids)) [
          | inl gone ↦
              let r =
                sweep_quota-swept quota keep assets s ids same
                  (passed-IsCovered test a assets s.db.transactions
                    (λ t e.
                      ap (λ k. not (any (λ id. str_eq id k) ids))
                        ((str_eq_iff t.id a.id).0 (ground (arith, e)))
                      ∙ ap not (ap (any (λ id. str_eq id a.id)) (sym same) ∙ gone))
                    h)
                  q g k in
              (r.0, rw (sweep_quota, over, gone) r.1, r.2, r.3, r.4)
          | inr open_still ↦
              let one = retired-step "quota" test a assets s.db (unfold str_eq in refl) h in
              elim one.6 [
                | inl (e, gone) ↦
                    let s' = record s {
                      db = one.1;
                      total_bytes = s.total_bytes -ℤ asset_size a;
                      retired_count = s.retired_count + 1;
                    } in
                    let r =
                      sweep_quota-swept quota keep assets s' ids same one.3 (one.4 q)
                        (one.5 (is_left ids) g) (one.5 keep k) in
                    (r.0, rw (sweep_quota, over, open_still, one.2, e) r.1, r.2, r.3, r.4)
                | inr e ↦
                    let r =
                      sweep_quota-swept quota keep assets (record s { db = one.1 }) ids same one.3
                        (one.4 q) (one.5 (is_left ids) g) (one.5 keep k) in
                    (r.0, rw (sweep_quota, over, open_still, one.2, e) r.1, r.2, r.3, r.4)
              ]
        ]
      ]
