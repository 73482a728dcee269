-- ===== src/Examples/Tokens.antt =====
-- The theorems on authorization states and token refreshes, applied to a small grant.
use square_uni_fi_protect_in.Common.{
  ◌≡◌, refl, true, false, List, [], ◌∷◌, some, none, ok, str_eq, str_is_empty, str_len,
}
use square_uni_fi_protect_in.Table.{find}
use square_uni_fi_protect_in.Schema.{SettingRow}
use square_uni_fi_protect_in.Store.Settings.{Cipher, write_setting, setting_value}
use square_uni_fi_protect_in.Store.Settings.Reading.{setting_value-write_setting}
use square_uni_fi_protect_in.Store.Oauth.{
  SquareOauthSnapshot, square_oauth_snapshot, update_square_oauth_tokens, is_same_grant,
  consume_oauth_state, write_tokens,
}
use square_uni_fi_protect_in.Store.Oauth.Refresh.{refresh_roundtrip, refresh_fenced, refreshed}
use square_uni_fi_protect_in.Store.Oauth.Once.{stores, consumes, oauth_run, oauth_state_once}

-- Stands for the cipher.
abbrev clear : Cipher
clear = record { encrypt = λ v. v; decrypt = λ v. ok v }

abbrev grant_rows : List SettingRow
grant_rows = record { key = "square.access_token"; value = "a"; encrypted = true } ∷ []

abbrev grant : SquareOauthSnapshot
grant = record {
  access_token = some "a";
  refresh_token = none;
  token_expires_at = none;
  environment = none;
  merchant_id = none;
  account_revision = none;
  client_id = none;
  client_secret = none;
}

grant_read : square_oauth_snapshot clear grant_rows ≡ ok grant
unfolding square_oauth_snapshot setting_value find str_eq
grant_read = refl

setting_value-write_setting_example :
    setting_value clear (write_setting clear "k" "v" true grant_rows) "k" ≡ ok (some "v")
unfolding str_eq
setting_value-write_setting_example =
    setting_value-write_setting clear (λ v. refl) "k" "v" true grant_rows "k"

refresh_roundtrip_example :
    (rows' : List SettingRow) × (update_square_oauth_tokens clear grant "b" "r" "t" grant_rows
      ≡ ok (true, rows'))
    × (square_oauth_snapshot clear rows' ≡ ok (refreshed "b" "r" "t" grant))
unfolding is_same_grant str_eq str_is_empty str_len
refresh_roundtrip_example =
    refresh_roundtrip clear (λ v. refl) "b" "r" "t" grant_rows grant grant grant_read refl refl

first_refresh :
    update_square_oauth_tokens clear grant "b" "r" "t" grant_rows
    ≡ ok (true, write_tokens clear "b" "r" "t" grant_rows)
unfolding update_square_oauth_tokens square_oauth_snapshot setting_value find is_same_grant str_eq
    str_is_empty str_len
first_refresh = refl

refresh_fenced_example :
    update_square_oauth_tokens clear grant "c" "r" "t" (write_tokens clear "b" "r" "t" grant_rows)
    ≡ ok (false, write_tokens clear "b" "r" "t" grant_rows)
unfolding str_eq str_is_empty str_len
refresh_fenced_example =
    refresh_fenced clear (λ v. refl) "b" "r" "t" grant_rows grant
      (write_tokens clear "b" "r" "t" grant_rows) "c" "r" "t" first_refresh refl refl

oauth_state_once_example :
    (consume_oauth_state
      (λ s. s)
      "x"
      9
      (oauth_run
        (λ s. s)
        (stores "y" 6 ∷ consumes "y" 7 ∷ [])
        (consume_oauth_state
          (λ s. s)
          "x"
          5
          (record { state_hash = "x"; created_at = 1; expires_at = 600 } ∷ [])).1)).0
    ≡ false
unfolding str_eq
oauth_state_once_example =
    oauth_state_once (λ s. s) "x" 5 9 (stores "y" 6 ∷ consumes "y" 7 ∷ [])
      (record { state_hash = "x"; created_at = 1; expires_at = 600 } ∷ []) (refl, (refl, tt))
