-- ===== src/Store/Motion/Tokens.antt =====
-- Which tokens the motion webhook accepts after its configuration.
use square_uni_fi_protect_in.Common.{
  ℕ, ◌≡◌, refl, sym, ap, ◌∙◌, Bool, true, false, not, ◌&&◌, ◌||◌, Option, none, some, List, [], ◌∷◌,
  String, ℤ, pos, negsuc, leb_ℤ, ltb, leb, i64_max, if◌then◌else◌, str_eq, str_eq_iff, str_len,
  str_is_empty, str_is_empty_iff, to_string, AppResult, AppResult-cases, ok, err, unauthorized,
  Bool-cases, inl, inr, ◌⊎◌, arith,
}
use square_uni_fi_protect_in.Common.Decimal.RoundTrip.{parse_i64-to_string}
use square_uni_fi_protect_in.Schema.{SettingRow}
use square_uni_fi_protect_in.Store.Guards.{validate_camera_id}
use square_uni_fi_protect_in.Store.Settings.{Cipher, setting_value, write_setting}
use square_uni_fi_protect_in.Store.Settings.Reading.{setting_value-write_setting}
use square_uni_fi_protect_in.Store.Motion.{
  MotionConfig, MotionConfigSecret, number_or, motion_config_locked, write_all, motion_values,
  is_bad_motion, choose_token, write_motion, authenticate_motion,
}

-- A configuration that was written.
abbrev pub motion_written : String → String → ℤ → ℤ → ℤ → MotionConfig
motion_written camera name window grace retention = record {
  enabled = true;
  camera_id = camera;
  camera_name = name;
  match_window_seconds = window;
  grace_seconds = grace;
  retention_days = retention;
  token_configured = true;
  last_event_ms = none;
}

-- The text that is written last for a key.
last_text :
    String → List (String × String × Bool) → AppResult (Option String) → AppResult (Option String)
last_text k [] stored = stored
last_text k ((key, value, secret) ∷ values) stored =
    last_text k values (if str_eq k key then ok (some value) else stored)

number_or_exact :
    (value default : ℤ) (low high : ℕ)
    → leb high i64_max ≡ true
    → (leb_ℤ (pos low) value && leb_ℤ value (pos high)) ≡ true
    → number_or (some (to_string value)) default (pos low) (pos high) ≡ value
unfolding number_or
number_or_exact (negsuc n) default low high fits h = absurd (ground (arith, h))
number_or_exact (pos n) default low high fits h =
    rw (number_or, parse_i64-to_string n (ground (arith, fits, h)), h) refl

-- A valid camera id is not empty.
validate_camera_id-nonempty :
    (camera : String) (u : Unit {0})
    → validate_camera_id camera ≡ ok u
    → str_is_empty camera ≡ false
unfolding validate_camera_id str_len
validate_camera_id-nonempty camera u h = elim (Bool-cases (str_is_empty camera)) [
  | inl e ↦ absurd (ground (arith, rw ((str_is_empty_iff camera).0 e) at h))
  | inr e ↦ e
]

module _ (cipher : Cipher)
    (decrypts : (v : String) → cipher.decrypt (cipher.encrypt v) ≡ ok v) where
  setting_value-write_all :
      (values : List (String × String × Bool)) (rows : List SettingRow) (k : String)
      → setting_value cipher (write_all cipher values rows) k
        ≡ last_text k values (setting_value cipher rows k)
  unfolding write_all last_text
  setting_value-write_all [] rows k = refl
  setting_value-write_all ((key, value, secret) ∷ values) rows k =
      setting_value-write_all values (write_setting cipher key value secret rows) k
      ∙ ap (last_text k values)
          (setting_value-write_setting cipher decrypts key value secret rows k)

  -- The settings read back as they were written.
  locked_exact :
      (token camera name : String) (window grace retention : ℤ) (rows : List SettingRow)
      → is_bad_motion name window grace retention ≡ false
      → str_is_empty token ≡ false
      → str_is_empty camera ≡ false
      → motion_config_locked cipher
          (write_all cipher (motion_values token camera name window grace retention) rows)
        ≡ ok (record { public = motion_written camera name window grace retention; token = token })
  unfolding motion_config_locked last_text str_eq
  locked_exact token camera name window grace retention rows good t c =
      let read = λ (k : String).
        setting_value-write_all (motion_values token camera name window grace retention) rows k in
      rw
        (
          motion_config_locked,
          read "protect.motion_webhook_token",
          read "protect.motion_camera_id",
          read "protect.motion_camera_name",
          read "protect.motion_match_window_seconds",
          read "protect.motion_grace_seconds",
          read "protect.motion_retention_days",
          number_or_exact window (pos 15) 1 300 refl (ground (arith, good)),
          number_or_exact grace (pos 90) 0 600 refl (ground (arith, good)),
          number_or_exact retention (pos 30) 1 365 refl (ground (arith, good)),
          t,
          c,
        )
        refl

  authenticate_locked :
      (presented token : String) (rows : List SettingRow) (config : MotionConfig)
      → config.enabled ≡ true
      → motion_config_locked cipher rows ≡ ok (record { public = config; token = token })
      → authenticate_motion cipher presented rows ≡ (
          if not (ltb 512 (str_len presented)) && str_eq presented token
          then ok config
          else err unauthorized)
  unfolding authenticate_motion
  authenticate_locked presented token rows config on l =
      elim (Bool-cases (ltb 512 (str_len presented))) [
        | inl long ↦ rw (authenticate_motion, long) refl
        | inr short ↦ elim (Bool-cases (str_eq presented token)) [
          | inl same ↦ simp (authenticate_motion, short, l, same, on) refl
          | inr other ↦ simp (authenticate_motion, short, l, other, on) refl
        ]
      ]

  -- The token that is stored: a fresh one, or the one before, which was not empty.
  chosen-nonempty :
      (fresh camera : String) (rotate : Bool) (current : MotionConfigSecret)
      → str_is_empty fresh ≡ false
      → (str_is_empty (choose_token fresh camera rotate current).0 ≡ false)
        × (((choose_token fresh camera rotate current).1
              ≡ some (choose_token fresh camera rotate current).0)
            ⊎ (((choose_token fresh camera rotate current).1 ≡ none)
                × ((choose_token fresh camera rotate current).0 ≡ current.token)
                × (rotate ≡ false)
                × (current.public.camera_id ≡ camera)))
  unfolding choose_token
  chosen-nonempty fresh camera rotate current h =
      elim (Bool-cases
        (rotate || (str_is_empty current.token || not (str_eq current.public.camera_id camera)))) [
          | inl e ↦ rw (choose_token, e) (h, inl refl)
          | inr e ↦
              rw (choose_token, e)
                (
                  ground (arith, e),
                  inr (
                    refl,
                    refl,
                    ground (arith, e),
                    (str_eq_iff current.public.camera_id camera).0 (ground (arith, e)),
                  ),
                )
        ]

  -- With a cipher that decrypts what it encrypted and a fresh token that is not empty: after an accepted
  -- configuration exactly one token is accepted, among the tokens of at most 512 bytes, and it gives the
  -- configuration written. It is the token revealed; or none was revealed, and it is the token from before,
  -- which is kept only without a rotation and for the camera from before.
  pub motion_token_exact :
      (fresh camera name : String) (window grace retention : ℤ) (rotate : Bool)
      (rows : List SettingRow) (revealed : Option String) (rows' : List SettingRow)
      (presented : String)
      → str_is_empty fresh ≡ false
      → write_motion cipher fresh camera name window grace retention rotate rows
        ≡ ok (revealed, rows')
      → (token : String) × ((revealed ≡ some token)
          ⊎ ((revealed ≡ none)
              × (rotate ≡ false)
              × ((current : MotionConfigSecret) × (motion_config_locked cipher rows ≡ ok current)
                  × (token ≡ current.token)
                  × (current.public.camera_id ≡ camera))))
        × (authenticate_motion cipher presented rows' ≡ (
            if not (ltb 512 (str_len presented)) && str_eq presented token
            then ok (motion_written camera name window grace retention)
            else err unauthorized))
  unfolding write_motion authenticate_motion
  motion_token_exact fresh camera name window grace retention rotate rows revealed rows' presented f
        h =
      elim (AppResult-cases (validate_camera_id camera)) [
        | inl (x, v) ↦ absurd (ground (arith, rw v at h))
        | inr (u, v) ↦ elim (Bool-cases (is_bad_motion name window grace retention)) [
          | inl bad ↦ absurd (ground (arith, rw (v, bad) at h))
          | inr good ↦ elim (AppResult-cases (motion_config_locked cipher rows)) [
            | inl (x, l) ↦ absurd (ground (arith, rw (v, good, l) at h))
            | inr (current, l) ↦
                let chosen = choose_token fresh camera rotate current in
                let c = chosen-nonempty fresh camera rotate current f in
                let shown : chosen.1 ≡ revealed = ground (arith, rw (v, good, l) at h) in
                let wrote : write_all cipher
                      (motion_values chosen.0 camera name window grace retention) rows
                    ≡ rows' =
                  ground (arith, rw (v, good, l) at h) in
                let locked =
                  locked_exact chosen.0 camera name window grace retention rows good c.0
                    (validate_camera_id-nonempty camera u v) in
                (
                  chosen.0,
                  elim c.1 [
                    | inl e ↦ inl (sym shown ∙ e)
                    | inr e ↦ inr (sym shown ∙ e.0, e.2, (current, l, e.1, e.3))
                  ],
                  authenticate_locked presented chosen.0 rows'
                      (motion_written camera name window grace retention) refl
                      (ap (motion_config_locked cipher) (sym wrote) ∙ locked),
                )
          ]
        ]
      ]
