-- ===== src/Store/Oauth/Refresh.antt =====
-- src/store.rs: concurrent refreshes of the Square tokens.
use square_uni_fi_protect_in.Common.{
  ◌≡◌, refl, true, false, Option, none, some, List, String, arith, if◌then◌else◌, str_eq, opt_eq,
  opt_is, str_eq_sym, AppResult-cases, inl, inr, ◌∙◌, ok,
}
use square_uni_fi_protect_in.Schema.{SettingRow}
use square_uni_fi_protect_in.Store.Settings.{Cipher, setting_value, write_setting}
use square_uni_fi_protect_in.Store.Settings.Reading.{setting_value-write_setting}
use square_uni_fi_protect_in.Store.Oauth.{
  SquareOauthSnapshot, is_same_grant, square_oauth_snapshot, has_bad_tokens, write_tokens,
  update_square_oauth_tokens,
}

-- The grant after a refresh.
abbrev pub refreshed : String → String → String → SquareOauthSnapshot → SquareOauthSnapshot
refreshed access_token refresh_token token_expires_at grant = record grant {
  access_token = some access_token;
  refresh_token = some refresh_token;
  token_expires_at = some token_expires_at;
}

opt_eq-some : (o : Option String) (s : String) → opt_eq (some s) o ≡ opt_is o s
opt_eq-some none s = refl
opt_eq-some (some t) s = str_eq_sym s t

module _ (cipher : Cipher) (decrypts : (v : String) → cipher.decrypt (cipher.encrypt v) ≡ ok v)
    (access_token refresh_token token_expires_at : String) (rows : List SettingRow) where
  setting_value-write_tokens :
      (k : String)
      → setting_value cipher
          (write_tokens cipher access_token refresh_token token_expires_at rows)
          k
        ≡ (if str_eq k "square.token_expires_at"
            then ok (some token_expires_at)
            else if str_eq k "square.refresh_token"
            then ok (some refresh_token)
            else if str_eq k "square.access_token"
            then ok (some access_token)
            else setting_value cipher rows k)
  unfolding write_tokens
  setting_value-write_tokens k =
      let first = write_setting cipher "square.access_token" access_token true rows in
      let second = write_setting cipher "square.refresh_token" refresh_token true first in
      rw
        (
          setting_value-write_setting cipher decrypts "square.token_expires_at" token_expires_at
              false second k,
          setting_value-write_setting cipher decrypts "square.refresh_token" refresh_token true
              first k,
          setting_value-write_setting cipher decrypts "square.access_token" access_token true rows
              k,
        )
        refl

  snapshot-write_tokens :
      (current : SquareOauthSnapshot)
      → square_oauth_snapshot cipher rows ≡ ok current
      → square_oauth_snapshot cipher
          (write_tokens cipher access_token refresh_token token_expires_at rows)
        ≡ ok (refreshed access_token refresh_token token_expires_at current)
  unfolding square_oauth_snapshot str_eq
  snapshot-write_tokens current e =
      let read = setting_value-write_tokens in
      ground (
        arith,
        e,
        read "square.access_token",
        read "square.refresh_token",
        read "square.token_expires_at",
        read "square.environment",
        read "square.merchant_id",
        read "square.account_revision",
        read "square.oauth_client_id",
        read "square.oauth_client_secret",
      )

  -- A refresh with valid tokens that finds the grant as it was when the refresh started is accepted, and
  -- the grant then reads back with the new tokens and is otherwise the same. The cipher decrypts what it
  -- encrypted.
  pub refresh_roundtrip :
      (expected current : SquareOauthSnapshot)
      → square_oauth_snapshot cipher rows ≡ ok current
      → is_same_grant current expected ≡ true
      → has_bad_tokens cipher access_token refresh_token token_expires_at ≡ false
      → (rows' : List SettingRow) × (update_square_oauth_tokens cipher expected access_token
            refresh_token token_expires_at rows
          ≡ ok (true, rows'))
        × (square_oauth_snapshot cipher rows'
            ≡ ok (refreshed access_token refresh_token token_expires_at current))
  unfolding update_square_oauth_tokens
  refresh_roundtrip expected current e same valid = (
    write_tokens cipher access_token refresh_token token_expires_at rows,
    rw (valid, e, same) refl,
    snapshot-write_tokens current e,
  )

  accepted_refresh :
      (expected : SquareOauthSnapshot) (rows' : List SettingRow)
      → update_square_oauth_tokens cipher expected access_token refresh_token token_expires_at rows
        ≡ ok (true, rows')
      → (current : SquareOauthSnapshot) × (square_oauth_snapshot cipher rows ≡ ok current)
        × (rows' ≡ write_tokens cipher access_token refresh_token token_expires_at rows)
  unfolding update_square_oauth_tokens
  accepted_refresh expected rows' done =
      elim (AppResult-cases (square_oauth_snapshot cipher rows)) [
        | inl (x, refused) ↦ absurd (ground (arith, done, refused))
        | inr (current, e) ↦ (current, e, ground (arith, done, e))
      ]

  -- Of two refreshes that start from the same grant only one is written: once the first was accepted and
  -- has replaced the access token by another one, the second, with any tokens that are valid, is refused
  -- and changes nothing. The cipher decrypts what it encrypted.
  pub refresh_fenced :
      (expected : SquareOauthSnapshot) (rows' : List SettingRow)
      (access' refresh' expires' : String)
      → update_square_oauth_tokens cipher expected access_token refresh_token token_expires_at rows
        ≡ ok (true, rows')
      → opt_is expected.access_token access_token ≡ false
      → has_bad_tokens cipher access' refresh' expires' ≡ false
      → update_square_oauth_tokens cipher expected access' refresh' expires' rows'
        ≡ ok (false, rows')
  unfolding update_square_oauth_tokens is_same_grant
  refresh_fenced expected rows' access' refresh' expires' done other valid =
      let first = accepted_refresh expected rows' done in
      rw first.2 (
        rw (valid, snapshot-write_tokens first.0 first.1)
          (rw (opt_eq-some expected.access_token access_token ∙ other) refl))
