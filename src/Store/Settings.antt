-- ===== src/Store/Settings.antt =====
-- src/store.rs: the table `settings`, whose secret values are encrypted. The cipher of
-- src/security.rs is a parameter, since its Fernet tokens are made by a library.
pub mod Reading
use square_uni_fi_protect_in.Common.{
  Bool, false, Option, none, some, List, [], ◌∷◌, ◌++◌, String, ℤ, if◌then◌else◌, str_eq, to_string,
  AppResult, ok, ◌>>=◌,
}
use square_uni_fi_protect_in.Table.{find, update_where, delete_where}
use square_uni_fi_protect_in.Schema.{SettingRow, setting_key}

-- `CredentialCipher`: what the store asks of it.
pub record Cipher : Type 0 where
  pub encrypt : String → String
  pub decrypt : String → AppResult String

-- INSERT … ON CONFLICT(key) DO UPDATE SET value, encrypted.
unfoldable pub put_setting : String → String → Bool → List SettingRow → List SettingRow
put_setting key value encrypted rows =
    let row : SettingRow = record { key = key; value = value; encrypted = encrypted } in
    elim (find setting_key key rows) [
      | none ↦ rows ++ row ∷ []
      | some old ↦
          update_where (λ s. str_eq s.key key)
            (λ s. record s { value = value; encrypted = encrypted }) rows
    ]

unfoldable pub write_plain_setting : String → ℤ → List SettingRow → List SettingRow
write_plain_setting key value rows = put_setting key (to_string value) false rows

unfoldable pub delete_settings : List String → List SettingRow → List SettingRow
delete_settings [] rows = rows
delete_settings (key ∷ keys) rows = delete_settings keys (delete_where (λ s. str_eq s.key key) rows)

module _ (cipher : Cipher) where
  open cipher use {encrypt, decrypt}

  unfoldable pub setting_value : List SettingRow → String → AppResult (Option String)
  setting_value rows key = elim (find setting_key key rows) [
    | none ↦ ok none
    | some s ↦ if s.encrypted then (decrypt s.value >>= λ v. ok (some v)) else ok (some s.value)
  ]

  unfoldable pub write_setting : String → String → Bool → List SettingRow → List SettingRow
  write_setting key value secret rows =
      put_setting key (if secret then encrypt value else value) secret rows
