-- ===== src/Thumbnails/Policy.antt =====
-- The storage policy of thumbnails: `load_policy` of src/thumbnail.rs and `update_thumbnail_policy` of
-- src/store.rs.
pub mod Stored
pub mod Revisions
use square_uni_fi_protect_in.Common.{
  ℕ, ◌+◌, Bool, true, false, not, ◌&&◌, ◌||◌, Option, none, some, List, [], ◌∷◌, String, ℤ, pos,
  ◌+ℤ◌, i64_max, leb_ℤ, ltb_ℤ, max_ℤ, if◌then◌else◌, opt_is, parse_i64, to_string, AppResult, ok,
  unprocessable, refuse_if, unwrap_or, ◌>>=◌, ◌>>◌,
}
use square_uni_fi_protect_in.Schema.{SettingRow}
use square_uni_fi_protect_in.Store.Settings.{Cipher, setting_value, write_plain_setting}

pub record ThumbnailPolicy : Type 0 where
  pub compression_enabled : Bool
  pub jpeg_quality : ℤ
  pub max_dimension : ℤ
  pub retention_days : ℤ
  pub max_storage_mib : ℤ
  pub revision : ℤ

-- `Ord::clamp`.
abbrev pub clamp : ℤ → ℤ → ℤ → ℤ
clamp value low high = if ltb_ℤ value low then low else if ltb_ℤ high value then high else value

-- `parse::<i64>().ok()` of a text that may be absent.
abbrev pub parsed : Option String → Option ℤ
parsed none = none
parsed (some text) = parse_i64 text

unfoldable pub bounded : Option String → ℤ → ℤ → ℤ → ℤ
bounded value default low high = clamp (unwrap_or (parsed value) default) low high

abbrev pub i64_top : ℤ
i64_top = pos i64_max

-- `saturating_add(1)`.
unfoldable pub saturating_inc : ℤ → ℤ
saturating_inc value = if leb_ℤ i64_top value then i64_top else value +ℤ pos 1

abbrev pub bool_digit : Bool → ℤ
bool_digit enabled = if enabled then pos 1 else pos 0

abbrev pub is_bad_policy : ℤ → ℤ → ℤ → ℤ → Bool
is_bad_policy jpeg_quality max_dimension retention_days max_storage_mib =
    not (leb_ℤ (pos 30) jpeg_quality && leb_ℤ jpeg_quality (pos 95))
    || (not (leb_ℤ (pos 320) max_dimension && leb_ℤ max_dimension (pos 3840))
        || (not (leb_ℤ (pos 0) retention_days && leb_ℤ retention_days (pos 3650))
            || not (leb_ℤ (pos 0) max_storage_mib && leb_ℤ max_storage_mib (pos 1_048_576))))

unfoldable pub put_all : List (String × ℤ) → List SettingRow → List SettingRow
put_all [] rows = rows
put_all ((key, value) ∷ values) rows = put_all values (write_plain_setting key value rows)

abbrev pub compression_values : Bool → ℤ → ℤ → List (String × ℤ)
compression_values enabled quality dimension =
    ("thumbnail.compression_enabled", bool_digit enabled)
    ∷ ("thumbnail.jpeg_quality", quality)
    ∷ ("thumbnail.max_dimension", dimension)
    ∷ []

abbrev pub policy_values : Bool → ℤ → ℤ → ℤ → ℤ → ℤ → List (String × ℤ)
policy_values enabled quality dimension retention storage revision =
    ("thumbnail.compression_enabled", bool_digit enabled)
    ∷ ("thumbnail.jpeg_quality", quality)
    ∷ ("thumbnail.max_dimension", dimension)
    ∷ ("thumbnail.retention_days", retention)
    ∷ ("thumbnail.max_storage_mib", storage)
    ∷ ("thumbnail.policy_revision", revision)
    ∷ []

module _ (cipher : Cipher) where
  unfoldable pub load_policy : List SettingRow → AppResult ThumbnailPolicy
  load_policy rows = do
    enabled ← setting_value cipher rows "thumbnail.compression_enabled"
    quality ← setting_value cipher rows "thumbnail.jpeg_quality"
    dimension ← setting_value cipher rows "thumbnail.max_dimension"
    retention ← setting_value cipher rows "thumbnail.retention_days"
    storage ← setting_value cipher rows "thumbnail.max_storage_mib"
    revision ← setting_value cipher rows "thumbnail.policy_revision"
    ok (record {
      compression_enabled = opt_is enabled "1";
      jpeg_quality = bounded quality (pos 72) (pos 30) (pos 95);
      max_dimension = bounded dimension (pos 960) (pos 320) (pos 3840);
      retention_days = bounded retention (pos 0) (pos 0) (pos 3650);
      max_storage_mib = bounded storage (pos 0) (pos 0) (pos 1_048_576);
      revision = bounded revision (pos 0) (pos 0) i64_top;
    })

  -- The loop that stops at the first value that differs from the stored one.
  unfoldable pub compression_changed : List SettingRow → List (String × ℤ) → AppResult Bool
  compression_changed rows [] = ok false
  compression_changed rows ((key, value) ∷ values) =
      let rest = compression_changed rows values in
      setting_value cipher rows key >>= λ stored.
      if opt_is stored (to_string value) then rest else ok true

  -- The revision moves if a compression value differs from the stored one.
  unfoldable pub next_revision : List (String × ℤ) → List SettingRow → AppResult ℤ
  next_revision values rows = do
    stored ← setting_value cipher rows "thumbnail.policy_revision"
    let old = max_ℤ (unwrap_or (parsed stored) (pos 0)) (pos 0)
    changed ← compression_changed rows values
    ok (if changed then saturating_inc old else old)

  unfoldable pub update_thumbnail_policy :
      Bool → ℤ → ℤ → ℤ → ℤ → List SettingRow → AppResult (ℤ × List SettingRow)
  update_thumbnail_policy enabled quality dimension retention storage rows = do
    refuse_if (is_bad_policy quality dimension retention storage) unprocessable
    revision ← next_revision (compression_values enabled quality dimension) rows
    ok (revision, put_all (policy_values enabled quality dimension retention storage revision) rows)
