-- ===== src/Thumbnails/Retention/Enforced.antt =====
-- Both loops of the maintenance together.
use square_uni_fi_protect_in.Common.{
  ℕ, ◌≤◌, ◌*◌, pos_part, AppResult, ◌≡◌, refl, ap, ◌∙◌, Bool, true, false, not, ◌&&◌, List, [], ◌∷◌,
  ℤ, pos, leb_ℤ, ltb_ℤ, if◌then◌else◌, any, All, All-mono, ◌⊎◌, inl, inr, Bool-cases, ok, arith,
}
use square_uni_fi_protect_in.Schema.{TransactionRow, Db}
use square_uni_fi_protect_in.Store.Queue.{IsConsistent}
use square_uni_fi_protect_in.Thumbnails.Policy.{ThumbnailPolicy}
use square_uni_fi_protect_in.Thumbnails.Retention.{
  list_thumbnail_assets, Sweep, sweep_age, sweep_quota, retention_cutoff, storage_quota,
  start_sweep, enforce_retention,
}
use square_uni_fi_protect_in.Thumbnails.Retention.Covered.{
  stands_for, IsCovered, is_kept, KeptPass, start-IsCovered,
}
use square_uni_fi_protect_in.Thumbnails.Retention.Measured.{
  kept_bytes, Agree, IsMeasured, sweep_age-IsMeasured, sweep_quota-IsMeasured,
}
use square_uni_fi_protect_in.Thumbnails.Retention.Started.{start-IsMeasured, start-Agree}
use square_uni_fi_protect_in.Thumbnails.Retention.Swept.{
  always, is_left, sweep_age-swept, sweep_quota-swept,
}

abbrev pub is_young : ThumbnailPolicy → ℤ → TransactionRow → Bool
is_young policy now_ms t = not (ltb_ℤ t.ts_ms (retention_cutoff now_ms policy.retention_days))

-- The loops end; no thumbnail is kept that is too old; the bytes of those that are kept fit.
abbrev pub RetentionHolds : ThumbnailPolicy → ℤ → Db → Type 0
RetentionHolds policy now_ms db =
    (aged : ℕ) × (fitted : ℕ) × (s : Sweep) × (enforce_retention policy always always now_ms db
      ≡ ok (aged, fitted, s))
    × (ltb_ℤ (pos 0) policy.retention_days ≡ true
        → KeptPass (is_young policy now_ms) s.db.transactions)
    × (ltb_ℤ (pos 0) policy.max_storage_mib ≡ true
        → kept_bytes s.db.transactions ≤ pos_part policy.max_storage_mib * 1024 * 1024)
    × IsConsistent s.db

none-kept_bytes :
    (rows : List TransactionRow) → All (λ t. is_kept t ≡ false) rows → kept_bytes rows ≡ 0
none-kept_bytes [] h = refl
none-kept_bytes (t ∷ rows) h = ground (arith, h.0, none-kept_bytes rows h.1)

-- The end of the second loop, by its total or for want of thumbnails, is within the quota.
within_quota :
    (quota : ℕ) (s : Sweep)
    → (leb_ℤ s.total_bytes (pos quota) ≡ true) ⊎ All (λ t. is_kept t ≡ false) s.db.transactions
    → IsMeasured s
    → kept_bytes s.db.transactions ≤ quota
within_quota quota s (inl fits) m = ground (arith, fits, m)
within_quota quota s (inr none_left) m = omega (arith, none-kept_bytes s.db.transactions none_left)

same_sweep : (o : AppResult Sweep) (r s : Sweep) → o ≡ ok r → o ≡ ok s → s ≡ r
same_sweep o r s e f = cc

all_left : (rows : List TransactionRow) → KeptPass (is_left []) rows
all_left [] = tt
all_left (t ∷ rows) = (λ k. refl, all_left rows)

-- The row is among the assets.
abbrev is_listed : Db → TransactionRow → Bool
is_listed db t = any (stands_for t) (list_thumbnail_assets db)

start-listed : (db : Db) → KeptPass (is_listed db) db.transactions
start-listed db =
    All-mono (λ t. (is_kept t && true) ≡ true → is_listed db t ≡ true)
      (λ t. is_kept t ≡ true → is_listed db t ≡ true) db.transactions
      (λ t h k. h (ground (arith, k))) (start-IsCovered (λ t. true) db)

listed-IsCovered :
    (test : TransactionRow → Bool) (db : Db) (rows : List TransactionRow)
    → KeptPass (is_listed db) rows
    → IsCovered test (list_thumbnail_assets db) rows
listed-IsCovered test db rows h =
    All-mono (λ t. is_kept t ≡ true → is_listed db t ≡ true)
      (λ t. (is_kept t && test t) ≡ true → is_listed db t ≡ true) rows
      (λ t l k. l (ground (arith, k))) h

age_phase :
    (policy : ThumbnailPolicy) (now_ms : ℤ) (db : Db)
    → IsConsistent db
    → (r : Sweep) × ((if ltb_ℤ (pos 0) policy.retention_days
          then sweep_age always now_ms
              (retention_cutoff now_ms policy.retention_days)
              (list_thumbnail_assets db)
              (start_sweep db)
          else ok (start_sweep db))
        ≡ ok r)
      × (ltb_ℤ (pos 0) policy.retention_days ≡ true
          → KeptPass (is_young policy now_ms) r.db.transactions)
      × IsConsistent r.db
      × (r.policy_changed ≡ false)
      × KeptPass (is_left r.retired_ids) r.db.transactions
      × KeptPass (is_listed db) r.db.transactions
      × Agree (list_thumbnail_assets db) r.db.transactions
      × IsMeasured r
unfolding start_sweep
age_phase policy now_ms db q = elim (Bool-cases (ltb_ℤ (pos 0) policy.retention_days)) [
  | inr off ↦ (
    start_sweep db,
    rw off refl,
    λ on. absurd (ground (arith, on, off)),
    q,
    refl,
    all_left db.transactions,
    start-listed db,
    start-Agree db q.tx_unique,
    start-IsMeasured db,
  )
  | inl on ↦
      let cutoff = retention_cutoff now_ms policy.retention_days in
      let r =
        sweep_age-swept now_ms cutoff (is_listed db) (list_thumbnail_assets db) (start_sweep db)
          (start-IsCovered (λ t. ltb_ℤ t.ts_ms cutoff) db) q (all_left db.transactions)
          (start-listed db) in
      let agree = start-Agree db q.tx_unique in
      let m =
        sweep_age-IsMeasured now_ms cutoff (list_thumbnail_assets db) (list_thumbnail_assets db)
          (start_sweep db) agree agree (start-IsMeasured db) in
      let same = same_sweep _ r.0 m.0 r.1 m.1 in
      (
        r.0,
        rw on r.1,
        λ same.
            All-mono (λ t. is_kept t ≡ true → ltb_ℤ t.ts_ms cutoff ≡ false)
              (λ t. is_kept t ≡ true → is_young policy now_ms t ≡ true) r.0.db.transactions
              (λ t h k. ground (arith, h k)) r.2,
        r.3,
        r.4,
        r.5,
        r.6,
        rw same at m.2,
        rw same at m.3,
      )
]

quota_phase :
    (policy : ThumbnailPolicy) (now_ms : ℤ) (db : Db) (keep : TransactionRow → Bool) (s : Sweep)
    → IsConsistent s.db
    → s.policy_changed ≡ false
    → KeptPass (is_left s.retired_ids) s.db.transactions
    → KeptPass (is_listed db) s.db.transactions
    → KeptPass keep s.db.transactions
    → Agree (list_thumbnail_assets db) s.db.transactions
    → IsMeasured s
    → (r : Sweep) × ((if ltb_ℤ (pos 0) policy.max_storage_mib && not s.policy_changed
          then sweep_quota always now_ms
              (storage_quota policy.max_storage_mib)
              (list_thumbnail_assets db)
              s
          else ok s)
        ≡ ok r)
      × (ltb_ℤ (pos 0) policy.max_storage_mib ≡ true
          → kept_bytes r.db.transactions ≤ pos_part policy.max_storage_mib * 1024 * 1024)
      × IsConsistent r.db
      × KeptPass keep r.db.transactions
quota_phase policy now_ms db keep s q same left listed k agree measured =
    elim (Bool-cases (ltb_ℤ (pos 0) policy.max_storage_mib)) [
      | inr off ↦ (s, rw off refl, λ on. absurd (ground (arith, on, off)), q, k)
      | inl on ↦
          let r =
            sweep_quota-swept now_ms (storage_quota policy.max_storage_mib) keep
              (list_thumbnail_assets db) s s.retired_ids refl
              (listed-IsCovered (is_left s.retired_ids) db s.db.transactions listed) q left k in
          let goes_on : (ltb_ℤ (pos 0) policy.max_storage_mib && not s.policy_changed) ≡ true =
            ground (arith, on, same) in
          let loop =
            sweep_quota always now_ms (storage_quota policy.max_storage_mib)
              (list_thumbnail_assets db) s in
          let m =
            sweep_quota-IsMeasured now_ms (storage_quota policy.max_storage_mib)
              (list_thumbnail_assets db) s agree measured in
          (
            r.0,
            ap (λ b. if b then loop else ok s) goes_on ∙ r.1,
            λ h.
                within_quota (pos_part policy.max_storage_mib * 1024 * 1024) r.0
                  (unfold storage_quota in r.2) (rw (same_sweep _ r.0 m.0 r.1 m.1) at m.2),
            r.3,
            r.4,
          )
    ]

-- On a consistent database and with a policy that does not change meanwhile, the loops end. With a
-- period of retention, no thumbnail is kept of a transaction older than it; with a quota, the
-- recorded bytes of the thumbnails that are kept add up to no more than it. The database stays
-- consistent.
pub retention_enforced :
    (policy : ThumbnailPolicy) (now_ms : ℤ) (db : Db)
    → IsConsistent db
    → RetentionHolds policy now_ms db
unfolding enforce_retention
retention_enforced policy now_ms db q =
    let aged = age_phase policy now_ms db q in
    let reset : Sweep = record aged.0 { retired_count = 0 } in
    elim (Bool-cases (ltb_ℤ (pos 0) policy.retention_days)) [
      | inl on ↦
          let r =
            quota_phase policy now_ms db (is_young policy now_ms) reset aged.3 aged.4 aged.5 aged.6
              (aged.2 on) aged.7 aged.8 in
          (
            aged.0.retired_count,
            r.0.retired_count,
            r.0,
            rw (enforce_retention, aged.1, r.1) refl,
            λ h. r.4,
            r.2,
            r.3,
          )
      | inr off ↦
          let r =
            quota_phase policy now_ms db (is_listed db) reset aged.3 aged.4 aged.5 aged.6 aged.6
              aged.7 aged.8 in
          (
            aged.0.retired_count,
            r.0.retired_count,
            r.0,
            rw (enforce_retention, aged.1, r.1) refl,
            λ h. absurd (ground (arith, h, off)),
            r.2,
            r.3,
          )
    ]
