-- ===== src/Store/Guards.antt =====
-- src/store.rs: the checks on arguments, `validate_payment` to `is_local_filename`.
use square_uni_fi_protect_in.Common.{
  Bool, true, not, ◌&&◌, ◌||◌, String, is_negative, ltb, leb, ◌==◌, str_eq, str_len, str_is_empty,
  codes, any, all, length, is_ascii_alphanumeric, AppResult, unprocessable, refuse_if, ◌>>◌,
}
use square_uni_fi_protect_in.Schema.{CameraMappingEntry, PaymentFacts}

unfoldable pub has_forbidden_controls : String → Bool → Bool
has_forbidden_controls value allow_whitespace =
    any
      (λ c.
        (ltb c 32 && not (allow_whitespace && (c == b'\r' || c == b'\n' || c == b'\t')))
        || c == 127)
      (codes value)

unfoldable pub validate_camera_id : String → AppResult (Unit {0})
validate_camera_id value =
    refuse_if
      (not (leb 1 (str_len value) && leb (str_len value) 64)
        || not (all is_ascii_alphanumeric (codes value)))
      unprocessable

unfoldable pub validate_mapping : CameraMappingEntry → AppResult (Unit {0})
validate_mapping m = do
  refuse_if
      (str_is_empty m.location_id
        || ltb 64 (str_len m.location_id)
        || ltb 255 (str_len m.device_id)
        || ltb 255 (str_len m.device_name)
        || ltb 128 (str_len m.camera_name))
      unprocessable
  validate_camera_id m.camera_id

unfoldable pub validate_payment : PaymentFacts → AppResult (Unit {0})
validate_payment p =
    refuse_if
      (str_is_empty p.id
        || ltb 256 (str_len p.id)
        || str_is_empty p.created_at
        || str_is_empty p.updated_at
        || is_negative p.ts_ms
        || is_negative p.updated_ts_ms
        || is_negative p.refunded_amount)
      unprocessable

unfoldable pub validate_note : String → AppResult (Unit {0})
unfolding has_forbidden_controls
validate_note note =
    refuse_if (ltb 2000 (length (codes note)) || has_forbidden_controls note true) unprocessable

-- `Path::file_name` gives the whole of a Unix path back just when it has one normal component.
unfoldable pub is_local_filename : String → Bool
is_local_filename value =
    not (str_is_empty value)
    && not (any (λ c. c == b'/') (codes value))
    && not (str_eq value ".")
    && not (str_eq value "..")
