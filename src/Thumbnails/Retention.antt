-- ===== src/Thumbnails/Retention.antt =====
-- src/store.rs, `run_thumbnail_maintenance`: the retirement of old thumbnails and of those above the quota.
-- The calls of other threads that could come between two retirements are left out, but the policy may
-- change: `same_policy` tells whether the policy read at an asset's turn is the one expected.
pub mod Covered
pub mod Swept
pub mod Measured
pub mod Started
pub mod Enforced
use square_uni_fi_protect_in.Common.{
  ℕ, ◌+◌, ◌*◌, Bool, true, false, not, ◌&&◌, ◌||◌, Option, List, [], ◌∷◌, map, String, ℤ, pos, ◌-ℤ◌,
  ◌+ℤ◌, leb_ℤ, ltb_ℤ, eqb_ℤ, max_ℤ, pos_part, codes, if◌then◌else◌, any, str_eq, is_some, unwrap_or,
  AppResult, ok, ◌>>=◌,
}
use square_uni_fi_protect_in.Table.{select_where}
use square_uni_fi_protect_in.Schema.{TransactionRow, Db}
use square_uni_fi_protect_in.Store.Ordering.{order_by}
use square_uni_fi_protect_in.Store.Evidence.{
  RetirementOutcome, retired, skipped, policy_changed, retire_thumbnail,
}
use square_uni_fi_protect_in.Store.Feed.{codes_leb}
use square_uni_fi_protect_in.Thumbnails.Policy.{ThumbnailPolicy}

pub record ThumbnailAsset : Type 0 where
  pub id : String
  pub ts_ms : ℤ
  pub path : String
  pub bytes : Option ℤ
  pub policy_revision : ℤ

-- A row of the query, whose path is not NULL.
abbrev pub to_asset : TransactionRow → ThumbnailAsset
to_asset t = record {
  id = t.id;
  ts_ms = t.ts_ms;
  path = unwrap_or t.thumbnail_path "";
  bytes = t.thumbnail_bytes;
  policy_revision = t.thumbnail_policy_revision;
}

-- ORDER BY ts_ms, id.
abbrev pub is_older : TransactionRow → TransactionRow → Bool
is_older t u =
    ltb_ℤ t.ts_ms u.ts_ms || (eqb_ℤ t.ts_ms u.ts_ms && codes_leb (codes t.id) (codes u.id))

unfoldable pub list_thumbnail_assets : Db → List ThumbnailAsset
list_thumbnail_assets db =
    map to_asset (order_by is_older (select_where (λ t. is_some t.thumbnail_path) db.transactions))

-- `asset.bytes.unwrap_or(0).max(0)`.
abbrev pub asset_size : ThumbnailAsset → ℤ
asset_size a = max_ℤ (unwrap_or a.bytes (pos 0)) (pos 0)

unfoldable pub total_size : List ThumbnailAsset → ℤ
total_size [] = pos 0
total_size (a ∷ assets) = asset_size a +ℤ total_size assets

-- The variables of the two loops.
pub record Sweep : Type 0 where
  pub db : Db
  pub retired_ids : List String
  pub total_bytes : ℤ
  pub retired_count : ℕ
  pub policy_changed : Bool

-- What both loops do with the outcome of a retirement: `rest` is the rest of the loop. Only the first
-- loop remembers the ids.
unfoldable pub account_retirement :
    Bool
    → ThumbnailAsset
    → Sweep
    → (Sweep → AppResult Sweep)
    → RetirementOutcome × Db
    → AppResult Sweep
account_retirement remember a s rest (retired, db) = rest (record s {
  db = db;
  retired_ids = if remember then a.id ∷ s.retired_ids else s.retired_ids;
  total_bytes = s.total_bytes -ℤ asset_size a;
  retired_count = s.retired_count + 1;
})
account_retirement remember a s rest (skipped, db) = rest (record s { db = db })
account_retirement remember a s rest (policy_changed, db) =
    ok (record s { db = db; policy_changed = true })

module _ (same_policy : ThumbnailAsset → Bool) (now_ms : ℤ) where
  -- The assets older than the cutoff.
  unfoldable pub sweep_age : ℤ → List ThumbnailAsset → Sweep → AppResult Sweep
  sweep_age cutoff [] s = ok s
  sweep_age cutoff (a ∷ assets) s =
      let rest = sweep_age cutoff assets in
      if leb_ℤ cutoff a.ts_ms
      then rest s
      else retire_thumbnail a.id a.path (same_policy a) now_ms "age" s.db
        >>= account_retirement true a s rest

  -- The oldest assets, until the rest fits into the quota.
  unfoldable pub sweep_quota : ℤ → List ThumbnailAsset → Sweep → AppResult Sweep
  sweep_quota quota [] s = ok s
  sweep_quota quota (a ∷ assets) s =
      let rest = sweep_quota quota assets in
      if leb_ℤ s.total_bytes quota
      then ok s
      else if any (λ id. str_eq id a.id) s.retired_ids
      then rest s
      else retire_thumbnail a.id a.path (same_policy a) now_ms "quota" s.db
        >>= account_retirement false a s rest

-- `days * 86_400_000` and `mib * 1024 * 1024`.
unfoldable pub retention_cutoff : ℤ → ℤ → ℤ
retention_cutoff now_ms days = now_ms -ℤ pos (pos_part days * 86_400_000)

unfoldable pub storage_quota : ℤ → ℤ
storage_quota mib = pos (pos_part mib * 1024 * 1024)

unfoldable pub start_sweep : Db → Sweep
start_sweep db = record {
  db = db;
  retired_ids = [];
  total_bytes = total_size (list_thumbnail_assets db);
  retired_count = 0;
  policy_changed = false;
}

-- Both loops: the number of thumbnails that each retired, and the end.
unfoldable pub enforce_retention :
    ThumbnailPolicy
    → (ThumbnailAsset → Bool)
    → (ThumbnailAsset → Bool)
    → ℤ
    → Db
    → AppResult (ℕ × ℕ × Sweep)
enforce_retention policy same_age same_quota now_ms db = do
  let assets = list_thumbnail_assets db
  let start = start_sweep db
  aged ←
      (if ltb_ℤ (pos 0) policy.retention_days
        then sweep_age same_age now_ms (retention_cutoff now_ms policy.retention_days) assets start
        else ok start)
  let reset = record aged { retired_count = 0 }
  fitted ←
      (if ltb_ℤ (pos 0) policy.max_storage_mib && not aged.policy_changed
        then sweep_quota same_quota now_ms (storage_quota policy.max_storage_mib) assets reset
        else ok reset)
  ok (aged.retired_count, fitted.retired_count, fitted)
