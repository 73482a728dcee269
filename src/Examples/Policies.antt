-- ===== src/Examples/Policies.antt =====
-- A storage policy written to an empty table, and changed again.
use square_uni_fi_protect_in.Common.{
  ◌≡◌, ◌<◌, ◌⊎◌, length, ◌∷◌, some, str_eq, arith, refl, true, false, List, [], pos, ok, max_ℤ,
  String, ◌+ℤ◌,
}
use square_uni_fi_protect_in.Schema.{SettingRow}
use square_uni_fi_protect_in.Table.{find, count_where, update_where}
use square_uni_fi_protect_in.Store.Settings.{Cipher, setting_value}
use square_uni_fi_protect_in.Schema
use square_uni_fi_protect_in.Store.Queue.{IsConsistent}
use square_uni_fi_protect_in.Examples.Data.{sale_row, empty}
use square_uni_fi_protect_in.Store.Evidence.{update_thumbnail_metadata, remeasure}
use square_uni_fi_protect_in.Store.Evidence.Metadata.{update_thumbnail_metadata_fenced}
use square_uni_fi_protect_in.Thumbnails.Prepare.{prepare_thumbnail, prepare_thumbnail_shrinks}
use square_uni_fi_protect_in.Thumbnails.Retention.Enforced.{retention_enforced, RetentionHolds}
use square_uni_fi_protect_in.Thumbnails.Policy.{
  ThumbnailPolicy, load_policy, update_thumbnail_policy, next_revision, compression_changed,
  policy_values, put_all, saturating_inc,
}
use square_uni_fi_protect_in.Thumbnails.Policy.Stored.{policy_roundtrip}
use square_uni_fi_protect_in.Thumbnails.Policy.Revisions.{revision_exact}

abbrev pub plain : Cipher
plain = record { encrypt = λ s. s; decrypt = λ s. ok s }

abbrev stored : List SettingRow
stored = put_all (policy_values true (pos 72) (pos 960) (pos 30) (pos 0) (pos 1)) []

first_update :
    update_thumbnail_policy plain true (pos 72) (pos 960) (pos 30) (pos 0) [] ≡ ok (pos 1, stored)
unfolding update_thumbnail_policy next_revision compression_changed setting_value find
    saturating_inc max_ℤ ◌+ℤ◌
first_update = refl

policy_roundtrip_example :
    load_policy plain stored
    ≡ ok (record {
      compression_enabled = true;
      jpeg_quality = pos 72;
      max_dimension = pos 960;
      retention_days = pos 30;
      max_storage_mib = pos 0;
      revision = pos 1;
    })
policy_roundtrip_example =
    policy_roundtrip plain true (pos 72) (pos 960) (pos 30) (pos 0) [] (pos 1) stored first_update

revision_exact_example :
    (rows : List SettingRow) × (update_thumbnail_policy plain false
        (pos 72)
        (pos 960)
        (pos 7)
        (pos 0)
        stored
      ≡ ok (pos 2, rows))
unfolding saturating_inc ◌+ℤ◌
revision_exact_example =
    revision_exact plain true false (pos 72) (pos 960) (pos 30) (pos 0) (pos 72) (pos 960) (pos 7)
      (pos 0) [] (pos 1) stored first_update refl

abbrev strict : ThumbnailPolicy
strict = record {
  compression_enabled = false;
  jpeg_quality = pos 72;
  max_dimension = pos 960;
  retention_days = pos 1;
  max_storage_mib = pos 1;
  revision = pos 0;
}

abbrev captured_row : Schema.TransactionRow
captured_row = record sale_row {
  thumbnail_path = some "a.jpg";
  thumbnail_bytes = some (pos 2_000_000);
}

-- A later sale, whose thumbnail only the quota retires.
abbrev recent_row : Schema.TransactionRow
recent_row = record captured_row {
  id = "pay_2";
  ts_ms = pos 80_000_000;
  thumbnail_path = some "b.jpg";
}

abbrev captured : Schema.Db
captured = record empty {
  transactions = captured_row ∷ recent_row ∷ [];
  files = "a.jpg" ∷ "b.jpg" ∷ [];
}

captured-IsConsistent : IsConsistent captured
unfolding find str_eq
captured-IsConsistent = record {
  tx_unique = (refl, (refl, tt));
  retry_unique = tt;
  exact = λ k. ground arith;
}

retention_enforced_example : RetentionHolds strict (pos 90_000_000) captured
retention_enforced_example =
    retention_enforced strict (pos 90_000_000) captured captured-IsConsistent

prepare_thumbnail_shrinks_example :
    let p =
      prepare_thumbnail
        (λ original policy. ok (1 ∷ []))
        (1 ∷ 2 ∷ [])
        (record strict { compression_enabled = true }) in
    (((p.changed ≡ false) × (p.bytes ≡ 1 ∷ 2 ∷ []))
      ⊎ ((p.changed ≡ true) × (ok (1 ∷ []) ≡ ok p.bytes) × (length p.bytes < 2)))
    × (p.policy_revision ≡ pos 0)
prepare_thumbnail_shrinks_example =
    prepare_thumbnail_shrinks (λ original policy. ok (1 ∷ [])) (1 ∷ 2 ∷ [])
      (record strict { compression_enabled = true })

-- The first sale's thumbnail, compressed to five bytes under another revision.
abbrev compressed : Schema.Db
compressed = record captured {
  transactions =
      record captured_row { thumbnail_bytes = some (pos 5); thumbnail_policy_revision = pos 7 }
      ∷ recent_row
      ∷ [];
}

first_compression :
    update_thumbnail_metadata "pay_1" "a.jpg" captured_row.thumbnail_policy_revision
      (pos 5)
      (pos 7)
      captured
    ≡ ok (true, compressed)
unfolding update_thumbnail_metadata remeasure count_where update_where str_eq
first_compression = refl

update_thumbnail_metadata_fenced_example :
    (db : Schema.Db) × (update_thumbnail_metadata "pay_1" "a.jpg"
        captured_row.thumbnail_policy_revision
        (pos 6)
        (pos 8)
        compressed
      ≡ ok (false, db))
    × ((k : String) → Schema.find_tx k db ≡ Schema.find_tx k compressed)
update_thumbnail_metadata_fenced_example =
    update_thumbnail_metadata_fenced "pay_1" "a.jpg" captured_row.thumbnail_policy_revision (pos 5)
      (pos 7) (pos 6) (pos 8) captured compressed captured-IsConsistent.tx_unique refl refl
      first_compression
