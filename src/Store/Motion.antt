-- ===== src/Store/Motion.antt =====
-- src/store.rs: the motion webhook of the console, its settings and its token. A new token is random and an
-- argument.
pub mod Tokens
use square_uni_fi_protect_in.Common.{
  ℕ, Bool, true, false, not, ◌&&◌, ◌||◌, Option, none, some, List, [], ◌∷◌, String, ℤ, pos, leb_ℤ,
  max_ℤ, ltb, if◌then◌else◌, str_eq, str_len, str_is_empty, unwrap_or, to_string, AppResult, ok,
  err, unprocessable, unauthorized, refuse_if, ◌>>=◌, ◌>>◌,
}
use square_uni_fi_protect_in.Schema.{SettingRow, MotionRow}
use square_uni_fi_protect_in.Store.Guards.{validate_camera_id, has_forbidden_controls}
use square_uni_fi_protect_in.Store.Settings.{Cipher, setting_value, write_setting, delete_settings}
use square_uni_fi_protect_in.Thumbnails.Policy.{parsed}

pub record MotionConfig : Type 0 where
  pub enabled : Bool
  pub camera_id : String
  pub camera_name : String
  pub match_window_seconds : ℤ
  pub grace_seconds : ℤ
  pub retention_days : ℤ
  pub token_configured : Bool
  pub last_event_ms : Option ℤ

pub record MotionConfigSecret : Type 0 where
  pub public : MotionConfig
  pub token : String

-- A number within its bounds, or the default.
unfoldable pub number_or : Option String → ℤ → ℤ → ℤ → ℤ
number_or stored default low high = elim (parsed stored) [
  | none ↦ default
  | some value ↦ if leb_ℤ low value && leb_ℤ value high then value else default
]

-- SELECT MAX(received_at_ms) … WHERE camera_id=?.
unfoldable pub last_event : String → List MotionRow → Option ℤ
last_event camera [] = none
last_event camera (e ∷ events) =
    let rest = last_event camera events in
    if str_eq e.camera_id camera
    then some (elim rest [ none ↦ e.received_at_ms | some at ↦ max_ℤ e.received_at_ms at ])
    else rest

abbrev pub motion_values : String → String → String → ℤ → ℤ → ℤ → List (String × String × Bool)
motion_values token camera name window grace retention =
    ("protect.motion_webhook_token", token, true)
    ∷ ("protect.motion_camera_id", camera, false)
    ∷ ("protect.motion_camera_name", name, false)
    ∷ ("protect.motion_match_window_seconds", to_string window, false)
    ∷ ("protect.motion_grace_seconds", to_string grace, false)
    ∷ ("protect.motion_retention_days", to_string retention, false)
    ∷ []

abbrev pub is_bad_motion : String → ℤ → ℤ → ℤ → Bool
is_bad_motion name window grace retention =
    (ltb 128 (str_len name) || has_forbidden_controls name false)
    || (not (leb_ℤ (pos 1) window && leb_ℤ window (pos 300))
        || (not (leb_ℤ (pos 0) grace && leb_ℤ grace (pos 600))
            || not (leb_ℤ (pos 1) retention && leb_ℤ retention (pos 365))))

-- The token to store, and the one to reveal.
unfoldable pub choose_token : String → String → Bool → MotionConfigSecret → String × Option String
choose_token fresh camera rotate current =
    if rotate || (str_is_empty current.token || not (str_eq current.public.camera_id camera))
    then (fresh, some fresh)
    else (current.token, none)

module _ (cipher : Cipher) where
  unfoldable pub motion_config_locked : List SettingRow → AppResult MotionConfigSecret
  motion_config_locked rows = do
    token_text ← setting_value cipher rows "protect.motion_webhook_token"
    camera_text ← setting_value cipher rows "protect.motion_camera_id"
    name_text ← setting_value cipher rows "protect.motion_camera_name"
    window ← setting_value cipher rows "protect.motion_match_window_seconds"
    grace ← setting_value cipher rows "protect.motion_grace_seconds"
    retention ← setting_value cipher rows "protect.motion_retention_days"
    let token = unwrap_or token_text ""
    let camera = unwrap_or camera_text ""
    ok (record {
      public = record {
        enabled = not (str_is_empty token) && not (str_is_empty camera);
        camera_id = camera;
        camera_name = unwrap_or name_text "";
        match_window_seconds = number_or window (pos 15) (pos 1) (pos 300);
        grace_seconds = number_or grace (pos 90) (pos 0) (pos 600);
        retention_days = number_or retention (pos 30) (pos 1) (pos 365);
        token_configured = not (str_is_empty token);
        last_event_ms = none;
      };
      token = token;
    })

  unfoldable pub motion_config : List SettingRow → List MotionRow → AppResult MotionConfig
  motion_config rows events = do
    config ← motion_config_locked rows
    ok (record config.public {
      last_event_ms =
          if str_is_empty config.public.camera_id
          then none
          else last_event config.public.camera_id events;
    })

  -- Settings are written in the order of the list.
  unfoldable pub write_all : List (String × String × Bool) → List SettingRow → List SettingRow
  write_all [] rows = rows
  write_all ((key, value, secret) ∷ values) rows =
      write_all values (write_setting cipher key value secret rows)

  -- The transaction: the token to reveal, and the settings written.
  unfoldable pub write_motion :
      String
      → String
      → String
      → ℤ
      → ℤ
      → ℤ
      → Bool
      → List SettingRow
      → AppResult (Option String × List SettingRow)
  write_motion fresh camera name window grace retention rotate rows = do
    validate_camera_id camera
    refuse_if (is_bad_motion name window grace retention) unprocessable
    current ← motion_config_locked rows
    let chosen = choose_token fresh camera rotate current
    ok (chosen.1, write_all (motion_values chosen.0 camera name window grace retention) rows)

  -- The settings stay written if reading them back fails.
  unfoldable pub configure_motion :
      String
      → String
      → String
      → ℤ
      → ℤ
      → ℤ
      → Bool
      → List SettingRow
      → List MotionRow
      → AppResult (MotionConfig × Option String) × List SettingRow
  configure_motion fresh camera name window grace retention rotate rows events =
      elim (write_motion fresh camera name window grace retention rotate rows) [
        | err e ↦ (err e, rows)
        | ok written ↦
            (motion_config written.1 events >>= λ config. ok (config, written.0), written.1)
      ]

  -- Texts of equal length with equal bytes are equal texts.
  unfoldable pub authenticate_motion : String → List SettingRow → AppResult MotionConfig
  authenticate_motion token rows = do
    refuse_if (ltb 512 (str_len token)) unauthorized
    config ← motion_config_locked rows
    refuse_if (not config.public.enabled || not (str_eq token config.token)) unauthorized
    ok config.public

unfoldable pub disable_motion : List SettingRow → List SettingRow
disable_motion rows =
    delete_settings
      ("protect.motion_webhook_token" ∷ "protect.motion_camera_id" ∷ "protect.motion_camera_name"
        ∷ "protect.motion_match_window_seconds" ∷ "protect.motion_grace_seconds"
        ∷ "protect.motion_retention_days" ∷ [])
      rows
