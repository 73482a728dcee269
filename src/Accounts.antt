-- ===== src/Accounts.antt =====
-- src/store.rs: users, login sessions and the login audit. The hash of session tokens
-- (`hash_session_token` of src/security.rs) is SHA-256 of a library and a parameter here.
pub mod Names
pub mod Sessions
pub mod Logins
pub mod Audit
pub mod Identity
use square_uni_fi_protect_in.Common.{
  ℕ, suc, ◌+◌, ◌*◌, Bool, true, false, not, ◌&&◌, ◌||◌, Option, none, some, List, [], ◌∷◌, ◌++◌,
  String, ℤ, pos, negsuc, if◌then◌else◌, ltb, leb, ◌==◌, length, take, any, is_some, is_some_and,
  str_eq, str_len, str_is_empty, eq_ignore_ascii_case, AppResult, ok, err, internal, bad_request,
  conflict, unprocessable, refuse_if, ok_or, ◌>>=◌, ◌>>◌,
}
use mathlib.Core.Option
use square_uni_fi_protect_in.Table.{
  find, first_where, update_where, delete_where, count_where, select_where,
}
use square_uni_fi_protect_in.Schema.{SettingRow, second}
use square_uni_fi_protect_in.Store.Settings.{delete_settings}
use square_uni_fi_protect_in.Store.Ordering.{order_by}
use square_uni_fi_protect_in.Accounts.Names.{normalize_username}

-- A row of `users`.
pub record UserRow : Type 0 where
  pub id : ℕ
  pub username : String
  pub password_hash : String
  pub role : String
  pub enabled : Bool
  pub auth_revision : ℕ
  pub created_at : ℕ

-- A row of `sessions`.
pub record SessionRow : Type 0 where
  pub token_hash : String
  pub user_id : ℕ
  pub expires_at : ℕ

-- A row of `login_audit`, and the record that the source reads from it.
pub record LoginAuditRecord : Type 0 where
  pub id : ℕ
  pub user_id : ℕ
  pub username : String
  pub role : String
  pub client_ip : String
  pub logged_in_at : ℕ

pub record UserRecord : Type 0 where
  pub id : ℕ
  pub username : String
  pub role : String
  pub enabled : Bool
  pub created_at : ℕ

pub record LoginUser : Type 0 where
  pub id : ℕ
  pub username : String
  pub password_hash : String
  pub role : String
  pub auth_revision : ℕ

pub record SessionUser : Type 0 where
  pub id : ℕ
  pub username : String
  pub role : String

-- The tables that accounts work on. The two sequences are the largest ids given out so far
-- (AUTOINCREMENT).
pub record Accounts : Type 0 where
  pub users : List UserRow
  pub user_sequence : ℕ
  pub sessions : List SessionRow
  pub login_audit : List LoginAuditRecord
  pub audit_sequence : ℕ
  pub settings : List SettingRow

abbrev pub session_key : SessionRow → String
session_key s = s.token_hash

-- SESSION_TTL_SECONDS.
abbrev pub session_ttl : ℕ
session_ttl = 43_200 * second

abbrev pub to_user_record : UserRow → UserRecord
to_user_record u = record {
  id = u.id;
  username = u.username;
  role = u.role;
  enabled = u.enabled;
  created_at = u.created_at;
}

abbrev pub to_session_user : UserRow → SessionUser
to_session_user u = record { id = u.id; username = u.username; role = u.role }

abbrev pub to_login_user : UserRow → LoginUser
to_login_user u = record {
  id = u.id;
  username = u.username;
  password_hash = u.password_hash;
  role = u.role;
  auth_revision = u.auth_revision;
}

unfoldable pub setup_complete : Accounts → Bool
setup_complete db = is_some (first_where (λ u. str_eq u.role "admin" && u.enabled) db.users)

-- INSERT INTO users, with the next id.
unfoldable pub add_user : String → String → String → ℕ → Accounts → Accounts
add_user username password_hash role now db = record db {
  users =
      db.users
      ++ record {
        id = db.user_sequence + 1;
        username = username;
        password_hash = password_hash;
        role = role;
        enabled = true;
        auth_revision = 0;
        created_at = now;
      }
        ∷ [];
  user_sequence = db.user_sequence + 1;
}

unfoldable pub create_initial_admin : String → ℕ → Accounts → AppResult (Bool × Accounts)
create_initial_admin password_hash now db = do
  refuse_if (str_is_empty password_hash || ltb 1024 (str_len password_hash)) bad_request
  let created = add_user "admin" password_hash "admin" now db
  (if is_some (first_where (λ u. true) db.users)
      then ok (false, db)
      else ok (
        true,
        record created { settings = delete_settings ("admin.password_hash" ∷ []) db.settings },
      ))

-- The column `username` is unique without regard to case.
unfoldable pub create_user :
    String → String → String → ℕ → Accounts → AppResult (UserRecord × Accounts)
create_user name password_hash role now db = do
  username ← normalize_username name
  refuse_if (not (str_eq role "admin" || str_eq role "viewer")) unprocessable
  refuse_if (any (λ u. eq_ignore_ascii_case u.username username) db.users) conflict
  let row : UserRecord = record {
    id = db.user_sequence + 1;
    username = username;
    role = role;
    enabled = true;
    created_at = now;
  }
  ok (row, add_user username password_hash role now db)

-- SET password_hash = ?, auth_revision = auth_revision + 1.
unfoldable pub change_password : String → UserRow → UserRow
change_password password_hash u = record u {
  password_hash = password_hash;
  auth_revision = u.auth_revision + 1;
}

-- The result counts the sessions that were revoked.
unfoldable pub reset_user_password : ℕ → String → Accounts → Option (UserRecord × ℕ) × Accounts
reset_user_password user_id password_hash db = elim (first_where (λ u. u.id == user_id) db.users) [
  | none ↦ (none, db)
  | some u ↦ (
    some (to_user_record u, count_where (λ s. s.user_id == user_id) db.sessions),
    record db {
      users = update_where (λ u. u.id == user_id) (change_password password_hash) db.users;
      sessions = delete_where (λ s. s.user_id == user_id) db.sessions;
    },
  )
]

unfoldable pub user_for_login : String → Accounts → Option LoginUser
user_for_login name db = elim (normalize_username name) [
  | err e ↦ none
  | ok username ↦
      Option.map to_login_user
        (first_where (λ u. eq_ignore_ascii_case u.username username && u.enabled) db.users)
]

-- WHERE id = ? AND enabled = 1 AND auth_revision = ?.
abbrev pub may_log_in : ℕ → ℕ → UserRow → Bool
may_log_in user_id revision u = u.id == user_id && (u.enabled && u.auth_revision == revision)

-- DELETE FROM sessions WHERE expires_at < ? OR NOT EXISTS (an enabled user of the session).
abbrev pub is_dead : ℕ → List UserRow → SessionRow → Bool
is_dead now users s = ltb s.expires_at now || not (any (λ u. u.id == s.user_id && u.enabled) users)

abbrev pub enabled_owner : SessionRow → List UserRow → Option UserRow
enabled_owner s users = first_where (λ u. u.id == s.user_id && u.enabled) users

-- The first row of `sessions JOIN users` for a token that has not expired.
unfoldable pub joined_user : String → ℕ → List SessionRow → List UserRow → Option UserRow
joined_user token_hash now [] users = none
joined_user token_hash now (s ∷ sessions) users =
    let rest = joined_user token_hash now sessions users in
    if str_eq s.token_hash token_hash && leb now s.expires_at
    then elim (enabled_owner s users) [ none ↦ rest | some u ↦ some u ]
    else rest

-- `!(1..=250).contains(&limit) || before_id.is_some_and(|value| value < 1)`.
abbrev pub is_bad_page : ℤ → Option ℤ → Bool
is_bad_page (negsuc n) before = true
is_bad_page (pos n) before =
    not (leb 1 n && leb n 250)
    || is_some_and before (λ id. elim id [ pos k ↦ ltb k 1 | negsuc k ↦ true ])

-- WHERE id < ?, where a position is given.
abbrev pub is_before : Option ℤ → LoginAuditRecord → Bool
is_before none r = true
is_before (some (pos n)) r = ltb r.id n
is_before (some (negsuc n)) r = false

-- ORDER BY id DESC.
abbrev pub is_newer : LoginAuditRecord → LoginAuditRecord → Bool
is_newer a b = leb b.id a.id

abbrev pub limit_of : ℤ → ℕ
limit_of (pos n) = n
limit_of (negsuc n) = 0

-- `records.last().map(|row| row.id)`.
abbrev pub last_id : List LoginAuditRecord → Option ℕ
last_id [] = none
last_id (r ∷ []) = some r.id
last_id (r ∷ s ∷ records) = last_id (s ∷ records)

unfoldable pub list_login_audit :
    ℤ → Option ℤ → Accounts → AppResult (List LoginAuditRecord × Option ℕ)
list_login_audit limit before db = do
  refuse_if (is_bad_page limit before) unprocessable
  let rows =
      take (suc (limit_of limit))
        (order_by is_newer (select_where (is_before before) db.login_audit))
  let records = take (limit_of limit) rows
  ok (records, if ltb (limit_of limit) (length rows) then last_id records else none)

module _ (hash_session_token : String → String) where
  unfoldable pub create_session :
      String → ℕ → ℕ → String → ℕ → Accounts → AppResult (SessionUser × Accounts)
  create_session token user_id revision client_ip now db = do
    refuse_if (str_is_empty client_ip || ltb 128 (str_len client_ip)) bad_request
    u ← ok_or (first_where (may_log_in user_id revision) db.users) conflict
    refuse_if (is_some (find session_key (hash_session_token token) db.sessions)) internal
    ok (
      to_session_user u,
      record db {
        sessions =
            db.sessions
            ++ record {
              token_hash = hash_session_token token;
              user_id = user_id;
              expires_at = now + session_ttl;
            }
              ∷ [];
        login_audit =
            db.login_audit
            ++ record {
              id = db.audit_sequence + 1;
              user_id = u.id;
              username = u.username;
              role = u.role;
              client_ip = client_ip;
              logged_in_at = now;
            }
              ∷ [];
        audit_sequence = db.audit_sequence + 1;
      },
    )

  unfoldable pub session_user : String → ℕ → Accounts → Option SessionUser × Accounts
  session_user token now db =
      let kept = delete_where (is_dead now db.users) db.sessions in
      (
        Option.map to_session_user (joined_user (hash_session_token token) now kept db.users),
        record db { sessions = kept },
      )

  unfoldable pub delete_session : String → Accounts → Accounts
  delete_session token db = record db {
    sessions = delete_where (λ s. str_eq s.token_hash (hash_session_token token)) db.sessions;
  }
