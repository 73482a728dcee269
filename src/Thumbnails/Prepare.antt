-- ===== src/Thumbnails/Prepare.antt =====
-- src/thumbnail.rs, `prepare_thumbnail`: the image that is stored. Decoding, resizing and encoding
-- (`compress_jpeg`) are a library's work and a parameter.
use square_uni_fi_protect_in.Common.{
  ℕ, ◌≡◌, ◌<◌, refl, Bool, true, false, not, List, ℤ, pos, length, ltb, if◌then◌else◌, AppResult,
  AppResult-cases, ok, err, Bool-cases, inl, inr, ◌⊎◌, arith,
}
use square_uni_fi_protect_in.Thumbnails.Policy.{ThumbnailPolicy}

-- `failed` tells whether the source keeps the text of an error.
pub record PreparedThumbnail : Type 0 where
  pub bytes : List ℕ
  pub policy_revision : ℤ
  pub changed : Bool
  pub failed : Bool

-- The match on the outcome of the compression.
unfoldable pub choose_image : List ℕ → ℤ → AppResult (List ℕ) → PreparedThumbnail
choose_image original revision (ok compressed) =
    if ltb (length compressed) (length original)
    then record { bytes = compressed; policy_revision = revision; changed = true; failed = false }
    else record { bytes = original; policy_revision = revision; changed = false; failed = false }
choose_image original revision (err e) = record {
  bytes = original;
  policy_revision = revision;
  changed = false;
  failed = true;
}

unfoldable pub prepare_thumbnail :
    (List ℕ → ThumbnailPolicy → AppResult (List ℕ)) → List ℕ → ThumbnailPolicy → PreparedThumbnail
unfolding choose_image
prepare_thumbnail compress_jpeg original policy =
    if not policy.compression_enabled
    then record { bytes = original; policy_revision = pos 0; changed = false; failed = false }
    else choose_image original policy.revision (compress_jpeg original policy)

-- A prepared image is the original, or is marked as changed and is what the compression gave, strictly
-- smaller. Only the policy in force, and only if it compresses, is recorded as its revision.
pub prepare_thumbnail_shrinks :
    (compress_jpeg : List ℕ → ThumbnailPolicy → AppResult (List ℕ)) (original : List ℕ)
    (policy : ThumbnailPolicy)
    → let p = prepare_thumbnail compress_jpeg original policy in
      (((p.changed ≡ false) × (p.bytes ≡ original))
        ⊎ ((p.changed ≡ true)
            × (compress_jpeg original policy ≡ ok p.bytes)
            × (length p.bytes < length original)))
      × (p.policy_revision ≡ (if policy.compression_enabled then policy.revision else pos 0))
unfolding prepare_thumbnail choose_image
prepare_thumbnail_shrinks compress_jpeg original policy =
    elim (Bool-cases policy.compression_enabled) [
      | inr off ↦ rw (prepare_thumbnail, off) (inl (refl, refl), refl)
      | inl on ↦ elim (AppResult-cases (compress_jpeg original policy)) [
        | inl (e, failed) ↦
            rw (prepare_thumbnail, failed, on, choose_image) (inl (refl, refl), refl)
        | inr (compressed, done) ↦ elim (Bool-cases (ltb (length compressed) (length original))) [
          | inl smaller ↦
              rw (prepare_thumbnail, done, on, choose_image, smaller)
                (inr (refl, refl, ground (arith, smaller)), refl)
          | inr larger ↦
              rw (prepare_thumbnail, done, on, choose_image, larger) (inl (refl, refl), refl)
        ]
      ]
    ]
