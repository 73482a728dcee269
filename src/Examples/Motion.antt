-- ===== src/Examples/Motion.antt =====
-- A motion webhook that is configured for the first time.
use square_uni_fi_protect_in.Common.{
  ◌≡◌, ◌⊎◌, refl, Bool, false, not, ◌&&◌, List, [], Option, String, pos, none, some, ok, err,
  unauthorized, if◌then◌else◌, ltb, str_len, str_eq, str_is_empty, is_ascii_alphanumeric,
}
use square_uni_fi_protect_in.Table.{find}
use square_uni_fi_protect_in.Schema.{SettingRow}
use square_uni_fi_protect_in.Store.Guards.{validate_camera_id, has_forbidden_controls}
use square_uni_fi_protect_in.Store.Settings.{setting_value}
use square_uni_fi_protect_in.Store.Motion.{
  MotionConfigSecret, motion_config_locked, write_all, motion_values, choose_token, write_motion,
  authenticate_motion, number_or,
}
use square_uni_fi_protect_in.Store.Motion.Tokens.{motion_token_exact, motion_written}
use square_uni_fi_protect_in.Examples.Policies.{plain}

abbrev door : List SettingRow
door = write_all plain (motion_values "fresh" "cam1" "Door" (pos 15) (pos 90) (pos 30)) []

first_motion :
    write_motion plain "fresh" "cam1" "Door" (pos 15) (pos 90) (pos 30) false []
    ≡ ok (some "fresh", door)
unfolding write_motion validate_camera_id has_forbidden_controls motion_config_locked choose_token
    setting_value find str_len str_is_empty str_eq is_ascii_alphanumeric number_or
first_motion = refl

motion_token_exact_example :
    (token : String) × ((◌≡◌ {A = Option String} (some "fresh") (some token))
      ⊎ ((◌≡◌ {A = Option String} (some "fresh") none)
          × (◌≡◌ {A = Bool} false false)
          × ((current : MotionConfigSecret) × (motion_config_locked plain [] ≡ ok current)
              × (token ≡ current.token)
              × (current.public.camera_id ≡ "cam1"))))
    × (authenticate_motion plain "guess" door ≡ (
        if not (ltb 512 (str_len "guess")) && str_eq "guess" token
        then ok (motion_written "cam1" "Door" (pos 15) (pos 90) (pos 30))
        else err unauthorized))
unfolding str_is_empty
motion_token_exact_example =
    motion_token_exact plain (λ v. refl) "fresh" "cam1" "Door" (pos 15) (pos 90) (pos 30) false []
      (some "fresh") door "guess" refl first_motion
