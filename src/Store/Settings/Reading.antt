-- ===== src/Store/Settings/Reading.antt =====
-- src/store.rs: what a setting reads as after it was written.
use square_uni_fi_protect_in.Common.{
  ◌≡◌, refl, Bool, none, some, List, String, arith, if◌then◌else◌, str_eq, str_eq_sym, str_eq_iff,
  Bool-cases, Option-cases, inl, inr, ok, ℤ, to_string, false,
}
use square_uni_fi_protect_in.Table.{find, find-append, find-update_row, find-key}
use square_uni_fi_protect_in.Schema.{SettingRow, setting_key}
use square_uni_fi_protect_in.Store.Settings.{
  Cipher, put_setting, write_plain_setting, setting_value, write_setting,
}

-- The stored row of a key after a write.
pub find-put_setting :
    (key value : String) (encrypted : Bool) (rows : List SettingRow) (k : String)
    → find setting_key k (put_setting key value encrypted rows) ≡ (
        if str_eq k key
        then some (record { key = key; value = value; encrypted = encrypted })
        else find setting_key k rows)
unfolding put_setting
find-put_setting key value encrypted rows k =
    let set : SettingRow → SettingRow = λ s. record s { value = value; encrypted = encrypted } in
    let row : SettingRow = record { key = key; value = value; encrypted = encrypted } in
    elim (Option-cases (find setting_key key rows)) [
      | inl e ↦ elim (Bool-cases (str_eq k key)) [
        | inl m ↦
            let absent : find setting_key k rows ≡ none = rw ((str_eq_iff k key).0 m) e in
            ground (arith, e, m, absent, find-append setting_key k rows row, str_eq_sym key k)
        | inr m ↦ ground (arith, e, m, find-append setting_key k rows row, str_eq_sym key k)
      ]
      | inr (old, e) ↦ elim (Bool-cases (str_eq k key)) [
        | inl m ↦
            let same : k ≡ key = (str_eq_iff k key).0 m in
            let found : find setting_key k rows ≡ some old = rw same e in
            ground (
              arith,
              found,
              m,
              find-update_row setting_key key set k rows (λ s. refl),
              find-key setting_key key rows old e,
            )
        | inr m ↦ ground (arith, e, m, find-update_row setting_key key set k rows (λ s. refl))
      ]
    ]

-- A plain value reads back whatever the cipher.
pub setting_value-write_plain :
    (cipher : Cipher) (key : String) (value : ℤ) (rows : List SettingRow) (k : String)
    → setting_value cipher (write_plain_setting key value rows) k
      ≡ (if str_eq k key then ok (some (to_string value)) else setting_value cipher rows k)
unfolding setting_value write_plain_setting
setting_value-write_plain cipher key value rows k =
    rw (setting_value, find-put_setting key (to_string value) false rows k)
      (elim (Bool-cases (str_eq k key)) [ inl m ↦ rw m refl | inr m ↦ rw m refl ])

module _ (cipher : Cipher)
    (decrypts : (v : String) → cipher.decrypt (cipher.encrypt v) ≡ ok v) where
  -- If the cipher decrypts what it encrypted, a setting reads as the value last written, secret or
  -- not, and every other setting as before.
  pub setting_value-write_setting :
      (key value : String) (secret : Bool) (rows : List SettingRow) (k : String)
      → setting_value cipher (write_setting cipher key value secret rows) k
        ≡ (if str_eq k key then ok (some value) else setting_value cipher rows k)
  unfolding setting_value write_setting
  setting_value-write_setting key value secret rows k =
      let stored = if secret then cipher.encrypt value else value in
      rw (setting_value, find-put_setting key stored secret rows k)
        (elim (Bool-cases (str_eq k key)) [
          | inl m ↦
              rw m (elim (Bool-cases secret) [
                | inl t ↦ rw (t, decrypts value) refl
                | inr f ↦ rw f refl
              ])
          | inr m ↦ rw m refl
        ])
