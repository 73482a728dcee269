-- ===== src/Thumbnails/Policy/Revisions.antt =====
-- When the revision of the policy moves.
use square_uni_fi_protect_in.Common.{
  ◌≡◌, refl, ap, Bool, true, false, not, ◌&&◌, some, List, [], ◌∷◌, String, ℤ, pos, negsuc, eqb_ℤ,
  eqb_ℤ_iff, max_ℤ, if◌then◌else◌, opt_is, parse_i64, to_string, ok, unwrap_or, Bool-cases, inl,
  inr, arith, str_eq, str_eq_iff,
}
use square_uni_fi_protect_in.Common.Decimal.RoundTrip.{parse_i64-to_string}
use square_uni_fi_protect_in.Schema.{SettingRow}
use square_uni_fi_protect_in.Store.Settings.{Cipher, setting_value}
use square_uni_fi_protect_in.Thumbnails.Policy.{
  parsed, saturating_inc, bool_digit, compression_changed, is_bad_policy, put_all, policy_values,
  compression_values, next_revision, update_thumbnail_policy,
}
use square_uni_fi_protect_in.Thumbnails.Policy.Stored.{accepted, IsRevision, IsStored}

abbrev pub is_same_compression : Bool → ℤ → ℤ → Bool → ℤ → ℤ → Bool
is_same_compression e q d e' q' d' = (if e then e' else not e') && (eqb_ℤ q q' && eqb_ℤ d d')

-- Small numbers with one print are equal.
opt_is-print :
    (v w : ℤ) → IsRevision v → IsRevision w → opt_is (some (to_string v)) (to_string w) ≡ eqb_ℤ v w
opt_is-print (pos a) (pos b) h k =
    elim (Bool-cases (str_eq (to_string (pos a)) (to_string (pos b)))) [
      | inl s ↦
          let printed = (str_eq_iff (to_string (pos a)) (to_string (pos b))).0 s in
          ground (
            arith,
            s,
            parse_i64-to_string a (ground (arith, h)),
            parse_i64-to_string b (ground (arith, k)),
            ap parse_i64 printed,
          )
      | inr s ↦ elim (Bool-cases (eqb_ℤ (pos a) (pos b))) [
        | inl t ↦
            let same = (eqb_ℤ_iff (pos a) (pos b)).0 t in
            absurd (
              ground (
                arith,
                s,
                (str_eq_iff (to_string (pos a)) (to_string (pos b))).1 (ap to_string same),
              ))
        | inr t ↦ ground (arith, s, t)
      ]
    ]
opt_is-print (pos a) (negsuc b) h k = absurd (ground (arith, k))
opt_is-print (negsuc a) w h k = absurd (ground (arith, h))

compression_changed-cons :
    (cipher : Cipher) (rows : List SettingRow) (key : String) (v w : ℤ) (values : List (String × ℤ))
    → setting_value cipher rows key ≡ ok (some (to_string v))
    → IsRevision v
    → IsRevision w
    → compression_changed cipher rows ((key, w) ∷ values)
      ≡ (if eqb_ℤ v w then compression_changed cipher rows values else ok true)
unfolding compression_changed
compression_changed-cons cipher rows key v w values s h k =
    rw (compression_changed, s, opt_is-print v w h k) refl

bool_digit-IsRevision : (e : Bool) → IsRevision (bool_digit e)
bool_digit-IsRevision true = refl
bool_digit-IsRevision false = refl

same_bit : (e e' : Bool) → eqb_ℤ (bool_digit e) (bool_digit e') ≡ (if e then e' else not e')
same_bit true true = refl
same_bit true false = refl
same_bit false true = refl
same_bit false false = refl

-- An update on top of a stored policy.
next_revision-IsStored :
    (cipher : Cipher) (e e' : Bool) (q d r m v q' d' : ℤ) (rows : List SettingRow)
    → IsStored cipher e q d r m v rows
    → IsRevision v
    → (IsRevision q × IsRevision d)
    → (IsRevision q' × IsRevision d')
    → next_revision cipher (compression_values e' q' d') rows
      ≡ ok (if is_same_compression e q d e' q' d' then v else saturating_inc v)
next_revision-IsStored cipher e e' q d r m v q' d' rows s k x y =
    let first =
      compression_changed-cons cipher rows "thumbnail.compression_enabled" (bool_digit e)
        (bool_digit e') (("thumbnail.jpeg_quality", q') ∷ ("thumbnail.max_dimension", d') ∷ [])
        s.enabled (bool_digit-IsRevision e) (bool_digit-IsRevision e') in
    let second =
      compression_changed-cons cipher rows "thumbnail.jpeg_quality" q q'
        (("thumbnail.max_dimension", d') ∷ []) s.quality x.0 y.0 in
    let third =
      compression_changed-cons cipher rows "thumbnail.max_dimension" d d' [] s.dimension x.1 y.1 in
    let none_left : compression_changed cipher rows [] ≡ ok false =
      unfold compression_changed in refl in
    let changed : compression_changed cipher rows (compression_values e' q' d')
        ≡ ok (not (is_same_compression e q d e' q' d')) =
      ground (arith, first, second, third, none_left, same_bit e e') in
    let old : max_ℤ (unwrap_or (parsed (some (to_string v))) (pos 0)) (pos 0) ≡ v =
      old_revision v k in
    unfold next_revision in rw (next_revision, s.revision, changed, old) (ground arith)
  where
    old_revision :
        (v : ℤ) → IsRevision v → max_ℤ (unwrap_or (parsed (some (to_string v))) (pos 0)) (pos 0) ≡ v
    old_revision (pos n) h =
        rw (parse_i64-to_string n (ground (arith, h))) (unfold max_ℤ in ground arith)
    old_revision (negsuc n) h = absurd (ground (arith, h))

-- On top of an accepted policy every further policy within the bounds is accepted. Its revision is that of
-- the old policy if the switch, the quality and the dimension of the compression are the old ones, and the
-- next one, up to the largest of i64, if any of them differs.
pub revision_exact :
    (cipher : Cipher) (enabled enabled' : Bool)
    (quality dimension retention storage quality' dimension' retention' storage' : ℤ)
    (rows : List SettingRow) (revision : ℤ) (rows' : List SettingRow)
    → update_thumbnail_policy cipher enabled quality dimension retention storage rows
      ≡ ok (revision, rows')
    → is_bad_policy quality' dimension' retention' storage' ≡ false
    → (rows'' : List SettingRow) × (update_thumbnail_policy cipher enabled' quality' dimension'
          retention' storage' rows'
        ≡ ok (
          if is_same_compression enabled quality dimension enabled' quality' dimension'
              then revision
              else saturating_inc revision,
          rows'',
        ))
unfolding update_thumbnail_policy
revision_exact cipher e e' q d r m q' d' r' m' rows v rows' h good =
    let a = accepted cipher e q d r m rows v rows' h in
    let w = if is_same_compression e q d e' q' d' then v else saturating_inc v in
    let n =
      next_revision-IsStored cipher e e' q d r m v q' d' rows' a.2 a.1
        (ground (arith, a.0), ground (arith, a.0)) (ground (arith, good), ground (arith, good)) in
    (put_all (policy_values e' q' d' r' m' w) rows', rw (update_thumbnail_policy, good, n) refl)
