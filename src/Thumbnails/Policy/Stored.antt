-- ===== src/Thumbnails/Policy/Stored.antt =====
-- What a written policy reads as.
use square_uni_fi_protect_in.Common.{
  ℕ, ◌≡◌, refl, sym, ap, ◌∙◌, Bool, true, false, ◌&&◌, Option, none, some, List, [], ◌∷◌, String, ℤ,
  pos, negsuc, leb_ℤ, max_ℤ, leb, i64_max, ◌+ℤ◌, if◌then◌else◌, opt_is, parse_i64, to_string,
  AppResult, AppResult-cases, ok, unwrap_or, Bool-cases, Option-cases, inl, inr, arith, str_eq,
}
use square_uni_fi_protect_in.Common.Decimal.RoundTrip.{
  parse_i64-to_string, parse_i64-le, to_string-bit,
}
use square_uni_fi_protect_in.Schema.{SettingRow}
use square_uni_fi_protect_in.Store.Settings.{Cipher, setting_value, write_plain_setting}
use square_uni_fi_protect_in.Store.Settings.Reading.{setting_value-write_plain}
use square_uni_fi_protect_in.Thumbnails.Policy.{
  parsed, bounded, i64_top, saturating_inc, bool_digit, load_policy, compression_changed,
  is_bad_policy, put_all, policy_values, compression_values, next_revision, update_thumbnail_policy,
}

-- The value that is written last for a key.
written : String → List (String × ℤ) → AppResult (Option String) → AppResult (Option String)
written k [] stored = stored
written k ((key, value) ∷ values) stored =
    written k values (if str_eq k key then ok (some (to_string value)) else stored)

setting_value-put_all :
    (cipher : Cipher) (values : List (String × ℤ)) (rows : List SettingRow) (k : String)
    → setting_value cipher (put_all values rows) k ≡ written k values (setting_value cipher rows k)
unfolding put_all written
setting_value-put_all cipher [] rows k = refl
setting_value-put_all cipher ((key, value) ∷ values) rows k =
    setting_value-put_all cipher values (write_plain_setting key value rows) k
    ∙ ap (written k values) (setting_value-write_plain cipher key value rows k)

module _ (e : Bool) (q d r m v : ℤ) (stored : AppResult (Option String)) where
  written-policy :
      (written "thumbnail.compression_enabled" (policy_values e q d r m v) stored
        ≡ ok (some (to_string (bool_digit e))))
      × (written "thumbnail.jpeg_quality" (policy_values e q d r m v) stored
          ≡ ok (some (to_string q)))
      × (written "thumbnail.max_dimension" (policy_values e q d r m v) stored
          ≡ ok (some (to_string d)))
      × (written "thumbnail.retention_days" (policy_values e q d r m v) stored
          ≡ ok (some (to_string r)))
      × (written "thumbnail.max_storage_mib" (policy_values e q d r m v) stored
          ≡ ok (some (to_string m)))
      × (written "thumbnail.policy_revision" (policy_values e q d r m v) stored
          ≡ ok (some (to_string v)))
  unfolding written str_eq
  written-policy = (refl, refl, refl, refl, refl, refl)

-- A value in its bounds reads back.
bounded_exact :
    (value default : ℤ) (low high : ℕ)
    → leb high i64_max ≡ true
    → (leb_ℤ (pos low) value && leb_ℤ value (pos high)) ≡ true
    → bounded (some (to_string value)) default (pos low) (pos high) ≡ value
unfolding bounded
bounded_exact (negsuc n) default low high fits h = absurd (ground (arith, h))
bounded_exact (pos n) default low high fits h =
    rw (bounded, parse_i64-to_string n (ground (arith, fits, h))) (ground (arith, h))

opt_is-bit : (e : Bool) → opt_is (some (to_string (bool_digit e))) "1" ≡ e
unfolding str_eq
opt_is-bit true = rw to_string-bit.1 refl
opt_is-bit false = rw to_string-bit.0 refl

-- The revision that an update goes on from lies within i64.
abbrev pub IsRevision : ℤ → Type 0
IsRevision v = (leb_ℤ (pos 0) v && leb_ℤ v i64_top) ≡ true

saturating_inc-IsRevision : (v : ℤ) → IsRevision v → IsRevision (saturating_inc v)
unfolding saturating_inc ◌+ℤ◌
saturating_inc-IsRevision v h = ground (arith, h)

pub parsed-IsRevision :
    (stored : Option String) → IsRevision (max_ℤ (unwrap_or (parsed stored) (pos 0)) (pos 0))
unfolding max_ℤ
parsed-IsRevision none = refl
parsed-IsRevision (some text) = elim (Option-cases (parse_i64 text)) [
  | inl e ↦ rw e refl
  | inr (pos n, e) ↦ rw e (ground (arith, parse_i64-le text n e))
  | inr (negsuc n, e) ↦ rw e (ground arith)
]

next_revision-IsRevision :
    (cipher : Cipher) (values : List (String × ℤ)) (rows : List SettingRow) (v : ℤ)
    → next_revision cipher values rows ≡ ok v
    → IsRevision v
unfolding next_revision
next_revision-IsRevision cipher values rows v h =
    elim (AppResult-cases (setting_value cipher rows "thumbnail.policy_revision")) [
      | inl (x, s) ↦ absurd (ground (arith, rw s at h))
      | inr (stored, s) ↦ elim (AppResult-cases (compression_changed cipher rows values)) [
        | inl (x, c) ↦ absurd (ground (arith, rw (s, c) at h))
        | inr (changed, c) ↦
            let old = parsed-IsRevision stored in
            ground (
              arith,
              rw (s, c) at h,
              old,
              saturating_inc-IsRevision (max_ℤ (unwrap_or (parsed stored) (pos 0)) (pos 0)) old,
            )
      ]
    ]

-- The values that an update took.
pub record IsStored (cipher : Cipher) (e : Bool) (q d r m v : ℤ) (rows : List SettingRow)
    : Type 0 where
  pub enabled :
      setting_value cipher rows "thumbnail.compression_enabled"
      ≡ ok (some (to_string (bool_digit e)))
  pub quality : setting_value cipher rows "thumbnail.jpeg_quality" ≡ ok (some (to_string q))
  pub dimension : setting_value cipher rows "thumbnail.max_dimension" ≡ ok (some (to_string d))
  pub retention : setting_value cipher rows "thumbnail.retention_days" ≡ ok (some (to_string r))
  pub storage : setting_value cipher rows "thumbnail.max_storage_mib" ≡ ok (some (to_string m))
  pub revision : setting_value cipher rows "thumbnail.policy_revision" ≡ ok (some (to_string v))

put_all-IsStored :
    (cipher : Cipher) (e : Bool) (q d r m v : ℤ) (rows : List SettingRow)
    → IsStored cipher e q d r m v (put_all (policy_values e q d r m v) rows)
put_all-IsStored cipher e q d r m v rows =
    let read = λ (k : String). setting_value-put_all cipher (policy_values e q d r m v) rows k in
    let w = λ (k : String). written-policy e q d r m v (setting_value cipher rows k) in
    record {
      enabled = read "thumbnail.compression_enabled" ∙ (w "thumbnail.compression_enabled").0;
      quality = read "thumbnail.jpeg_quality" ∙ (w "thumbnail.jpeg_quality").1;
      dimension = read "thumbnail.max_dimension" ∙ (w "thumbnail.max_dimension").2;
      retention = read "thumbnail.retention_days" ∙ (w "thumbnail.retention_days").3;
      storage = read "thumbnail.max_storage_mib" ∙ (w "thumbnail.max_storage_mib").4;
      revision = read "thumbnail.policy_revision" ∙ (w "thumbnail.policy_revision").5;
    }

-- An accepted update is in bounds, and its values are stored.
pub accepted :
    (cipher : Cipher) (e : Bool) (q d r m : ℤ) (rows : List SettingRow) (v : ℤ)
    (rows' : List SettingRow)
    → update_thumbnail_policy cipher e q d r m rows ≡ ok (v, rows')
    → (is_bad_policy q d r m ≡ false) × IsRevision v × IsStored cipher e q d r m v rows'
unfolding update_thumbnail_policy
accepted cipher e q d r m rows v rows' h = elim (Bool-cases (is_bad_policy q d r m)) [
  | inl bad ↦ absurd (ground (arith, rw bad at h))
  | inr good ↦ elim (AppResult-cases (next_revision cipher (compression_values e q d) rows)) [
    | inl (x, n) ↦ absurd (ground (arith, rw (good, n) at h))
    | inr (u, n) ↦
        let same : u ≡ v = ground (arith, rw (good, n) at h) in
        let wrote : put_all (policy_values e q d r m u) rows ≡ rows' =
          ground (arith, rw (good, n) at h) in
        (
          good,
          rw (sym same) (next_revision-IsRevision cipher (compression_values e q d) rows u n),
          rw (sym same, sym wrote) (put_all-IsStored cipher e q d r m u rows),
        )
  ]
]

-- A policy that was accepted is the policy in force, value by value, under the revision returned.
pub policy_roundtrip :
    (cipher : Cipher) (enabled : Bool) (quality dimension retention storage : ℤ)
    (rows : List SettingRow) (revision : ℤ) (rows' : List SettingRow)
    → update_thumbnail_policy cipher enabled quality dimension retention storage rows
      ≡ ok (revision, rows')
    → load_policy cipher rows'
      ≡ ok (record {
        compression_enabled = enabled;
        jpeg_quality = quality;
        max_dimension = dimension;
        retention_days = retention;
        max_storage_mib = storage;
        revision = revision;
      })
unfolding load_policy
policy_roundtrip cipher e q d r m rows v rows' h =
    let a = accepted cipher e q d r m rows v rows' h in
    let s = a.2 in
    rw
      (
        load_policy,
        s.enabled,
        s.quality,
        s.dimension,
        s.retention,
        s.storage,
        s.revision,
        opt_is-bit e,
        bounded_exact q (pos 72) 30 95 refl (ground (arith, a.0)),
        bounded_exact d (pos 960) 320 3840 refl (ground (arith, a.0)),
        bounded_exact r (pos 0) 0 3650 refl (ground (arith, a.0)),
        bounded_exact m (pos 0) 0 1_048_576 refl (ground (arith, a.0)),
        bounded_exact v (pos 0) 0 i64_max refl a.1,
      )
      refl
