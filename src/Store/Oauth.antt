-- ===== src/Store/Oauth.antt =====
-- src/store.rs: the states of pending Square authorizations, and the refresh of the Square tokens, which
-- is compared with the grant that it started from. The hash of states is library code.
pub mod Once
pub mod Refresh
use square_uni_fi_protect_in.Common.{
  drop, ℕ, ◌+◌, ◌*◌, Bool, true, false, ◌&&◌, ◌||◌, Option, List, [], ◌∷◌, ◌++◌, String,
  if◌then◌else◌, ltb, leb, ◌==◌, any, is_some, str_eq, str_len, str_is_empty, opt_eq, AppResult, ok,
  internal, upstream, refuse_if, ◌>>=◌, ◌>>◌,
}
use square_uni_fi_protect_in.Table.{find, delete_where, count_where}
use square_uni_fi_protect_in.Schema.{SettingRow, second}
use square_uni_fi_protect_in.Store.Ordering.{order_by}
use square_uni_fi_protect_in.Store.Settings.{Cipher, setting_value, write_setting}

-- A row of `square_oauth_states`.
pub record OauthStateRow : Type 0 where
  pub state_hash : String
  pub created_at : ℕ
  pub expires_at : ℕ

abbrev pub state_key : OauthStateRow → String
state_key s = s.state_hash

-- The states behind the sixteen newest.
unfoldable pub surplus : List OauthStateRow → List OauthStateRow
surplus states = drop 16 (order_by (λ a b. leb b.created_at a.created_at) states)

module _ (hash_session_token : String → String) where
  unfoldable pub store_oauth_state :
      String → ℕ → List OauthStateRow → AppResult (List OauthStateRow)
  store_oauth_state state now states = do
    let live = delete_where (λ s. leb s.expires_at now) states
    refuse_if (is_some (find state_key (hash_session_token state) live)) internal
    let row : OauthStateRow = record {
      state_hash = hash_session_token state;
      created_at = now;
      expires_at = now + 600 * second;
    }
    let grown = live ++ row ∷ []
    ok (delete_where (λ s. any (λ x. str_eq x.state_hash s.state_hash) (surplus grown)) grown)

  unfoldable pub consume_oauth_state : String → ℕ → List OauthStateRow → Bool × List OauthStateRow
  consume_oauth_state state now states =
      let p = λ (s : OauthStateRow).
        str_eq s.state_hash (hash_session_token state) && ltb now s.expires_at in
      (count_where p states == 1, delete_where (λ s. leb s.expires_at now) (delete_where p states))

-- The whole of the Square grant: what a refresh starts from.
pub record SquareOauthSnapshot : Type 0 where
  pub access_token : Option String
  pub refresh_token : Option String
  pub token_expires_at : Option String
  pub environment : Option String
  pub merchant_id : Option String
  pub account_revision : Option String
  pub client_id : Option String
  pub client_secret : Option String

unfoldable pub is_same_grant : SquareOauthSnapshot → SquareOauthSnapshot → Bool
is_same_grant a b =
    opt_eq a.access_token b.access_token
    && opt_eq a.refresh_token b.refresh_token
    && opt_eq a.token_expires_at b.token_expires_at
    && opt_eq a.environment b.environment
    && opt_eq a.merchant_id b.merchant_id
    && opt_eq a.account_revision b.account_revision
    && opt_eq a.client_id b.client_id
    && opt_eq a.client_secret b.client_secret

module _ (cipher : Cipher) where
  unfoldable pub square_oauth_snapshot : List SettingRow → AppResult SquareOauthSnapshot
  square_oauth_snapshot rows = do
    access_token ← setting_value cipher rows "square.access_token"
    refresh_token ← setting_value cipher rows "square.refresh_token"
    token_expires_at ← setting_value cipher rows "square.token_expires_at"
    environment ← setting_value cipher rows "square.environment"
    merchant_id ← setting_value cipher rows "square.merchant_id"
    account_revision ← setting_value cipher rows "square.account_revision"
    client_id ← setting_value cipher rows "square.oauth_client_id"
    client_secret ← setting_value cipher rows "square.oauth_client_secret"
    ok (record {
      access_token = access_token;
      refresh_token = refresh_token;
      token_expires_at = token_expires_at;
      environment = environment;
      merchant_id = merchant_id;
      account_revision = account_revision;
      client_id = client_id;
      client_secret = client_secret;
    })

  abbrev pub has_bad_tokens : String → String → String → Bool
  has_bad_tokens access_token refresh_token token_expires_at =
      str_is_empty access_token
      || ltb 16_384 (str_len access_token)
      || str_is_empty refresh_token
      || ltb 16_384 (str_len refresh_token)
      || ltb 128 (str_len token_expires_at)

  -- The three settings that a refresh writes.
  unfoldable pub write_tokens : String → String → String → List SettingRow → List SettingRow
  write_tokens access_token refresh_token token_expires_at rows =
      write_setting cipher "square.token_expires_at" token_expires_at false (
        write_setting cipher "square.refresh_token" refresh_token true
          (write_setting cipher "square.access_token" access_token true rows))

  unfoldable pub update_square_oauth_tokens :
      SquareOauthSnapshot
      → String
      → String
      → String
      → List SettingRow
      → AppResult (Bool × List SettingRow)
  update_square_oauth_tokens expected access_token refresh_token token_expires_at rows = do
    refuse_if (has_bad_tokens access_token refresh_token token_expires_at) upstream
    current ← square_oauth_snapshot rows
    (if is_same_grant current expected
        then ok (true, write_tokens access_token refresh_token token_expires_at rows)
        else ok (false, rows))
