-- ===== src/Examples/Logins.antt =====
-- The theorems on sessions and logins, applied to one user with one session.
use square_uni_fi_protect_in.Common.{
  is_whitespace, trim_start, trim_end, trim, ◌≡◌, refl, ℕ, List, Option, Bool, true, [], ◌∷◌, some,
  none, String, pos, if◌then◌else◌, arith, ok, err, conflict, structured, leb, ◌+◌, ◌==◌, ◌&&◌,
  ◌++◌, str_eq, str_len, str_is_empty, eq_ignore_ascii_case, is_ascii_alphanumeric, to_lower,
}
use mathlib.Core.Option
use square_uni_fi_protect_in.Table.{find, first_where, select_where}
use square_uni_fi_protect_in.Accounts
use square_uni_fi_protect_in.Accounts.{
  session_user, create_session, reset_user_password, list_login_audit, setup_complete, session_key,
  to_session_user, user_for_login, session_ttl, is_before, is_newer, last_id,
}
use square_uni_fi_protect_in.Accounts.Names.{normalize_username}
use square_uni_fi_protect_in.Accounts.Sessions.{
  session_user_exact, reset_revokes, session_lifetime, owner_of, is_owned_by,
}
use square_uni_fi_protect_in.Accounts.Logins.{reset_fences_login}
use square_uni_fi_protect_in.Accounts.Audit.{IsPage, list_login_audit-IsPage}
use square_uni_fi_protect_in.Web.Login.{
  FailureEntry, LoginBody, WebState, login, prune_login_failures, check_throttle, record_failure,
  authenticate,
}
use square_uni_fi_protect_in.Web.Login.Throttle.{
  checks, fails, succeeds, react_all, throttle-IsBounded, IsBounded,
}
use square_uni_fi_protect_in.Web.Login.Access.{lockout_refuses, login_sound}

abbrev ann : Accounts.UserRow
ann = record {
  id = 1;
  username = "ann";
  password_hash = "h";
  role = "admin";
  enabled = true;
  auth_revision = 0;
  created_at = 0;
}

abbrev shop : Accounts.Accounts
shop = record {
  users = ann ∷ [];
  user_sequence = 1;
  sessions = record { token_hash = "t"; user_id = 1; expires_at = 900 } ∷ [];
  login_audit = [];
  audit_sequence = 0;
  settings = [];
}

-- Stands for the hash of tokens.
abbrev same : String → String
same token = token

-- Stands for the verification of passwords.
abbrev verify : String → String → Bool
verify password hash = str_eq password "secret" && str_eq hash "h"

session_user_exact_example :
    (session_user same "t" 5 shop).0
    ≡ Option.map to_session_user (owner_of 5 shop.users (find session_key "t" shop.sessions))
unfolding find
session_user_exact_example = session_user_exact same "t" 5 shop (refl, tt)

reset_revokes_example : (session_user same "t" 5 (reset_user_password 1 "new" shop).1).0 ≡ (
    if is_owned_by 1 (find session_key "t" shop.sessions)
    then none
    else (session_user same "t" 5 shop).0)
unfolding find first_where
reset_revokes_example = reset_revokes same "t" 5 shop 1 "new" (refl, tt) refl

-- The database after another login.
abbrev logged_in : Accounts.Accounts
logged_in = record shop {
  sessions =
      shop.sessions ++ record { token_hash = "u"; user_id = 1; expires_at = 43200000005 } ∷ [];
  login_audit =
      record {
        id = 1;
        user_id = 1;
        username = "ann";
        role = "admin";
        client_ip = "::1";
        logged_in_at = 5;
      }
      ∷ [];
  audit_sequence = 1;
}

second_login : create_session same "u" 1 0 "::1" 5 shop ≡ ok (to_session_user ann, logged_in)
unfolding create_session find first_where str_eq str_is_empty str_len
second_login = refl

session_lifetime_example :
    (session_user same "u" 6 logged_in).0
    ≡ (if leb 6 43200000005 then some (to_session_user ann) else none)
unfolding find first_where
session_lifetime_example =
    session_lifetime same "u" 5 shop 1 0 "::1" 6 (to_session_user ann) logged_in (refl, tt)
      (refl, tt) second_login

reset_fences_login_example :
    create_session same "u" 1 0 "::1" 5 (reset_user_password 1 "new" shop).1 ≡ err conflict
unfolding first_where str_is_empty str_len
reset_fences_login_example =
    reset_fences_login same "u" 1 0 "::1" 5 "new" shop ann (refl, tt) refl refl refl

-- Two logins in the audit, of which the first page shows the second.
abbrev audited : Accounts.Accounts
audited = record logged_in {
  login_audit =
      logged_in.login_audit
      ++ record {
        id = 2;
        user_id = 1;
        username = "ann";
        role = "admin";
        client_ip = "::1";
        logged_in_at = 6;
      }
        ∷ [];
}

list_login_audit-IsPage_example :
    (page : List Accounts.LoginAuditRecord) × (next : Option ℕ) × (rest : List
      Accounts.LoginAuditRecord)
    × (list_login_audit (pos 1) none audited ≡ ok (page, next))
    × IsPage 1 none audited.login_audit page next rest
list_login_audit-IsPage_example = list_login_audit-IsPage 1 none audited refl

throttle-IsBounded_example :
    IsBounded (react_all (fails "a" 1 ∷ checks "a" 2 ∷ succeeds "b" ∷ []) [])
throttle-IsBounded_example =
    throttle-IsBounded (fails "a" 1 ∷ checks "a" 2 ∷ succeeds "b" ∷ []) [] (tt, omega arith)

abbrev five : FailureEntry
five = record { key = "a"; attempts = 1 ∷ 2 ∷ 3 ∷ 4 ∷ 5 ∷ [] }

abbrev attempt : LoginBody
attempt = record { username = "ann"; password = "secret" }

abbrev locked : WebState
locked = record { accounts = shop; login_failures = five ∷ [] }

lockout_refuses_example :
    login same verify "" attempt "a" "u" 6 7 locked
    ≡ (err structured, record locked { login_failures = prune_login_failures 6 (five ∷ []) })
unfolding find select_where str_eq str_len setup_complete first_where
lockout_refuses_example =
    lockout_refuses same verify "" attempt "a" "u" 6 7 locked five (refl, tt) refl (omega arith)
      refl refl

abbrev fresh : WebState
fresh = record { accounts = shop; login_failures = [] }

good_login : (login same verify "" attempt "::1" "u" 4 5 fresh).0 ≡ ok (to_session_user ann)
unfolding login check_throttle prune_login_failures find authenticate user_for_login
    normalize_username trim create_session first_where setup_complete record_failure str_eq str_len
    str_is_empty eq_ignore_ascii_case to_lower is_ascii_alphanumeric is_whitespace trim_start
    trim_end
good_login = refl

login_sound_example :
    (o : Accounts.UserRow) × (first_where (λ u. u.id == o.id) shop.users ≡ some o)
    × (o.enabled ≡ true)
    × (eq_ignore_ascii_case o.username (trim "ann") ≡ true)
    × (verify "secret" o.password_hash ≡ true)
    × (to_session_user ann ≡ to_session_user o)
    × ((session_user same "u" 8 (login same verify "" attempt "::1" "u" 4 5 fresh).1.accounts).0
        ≡ (if leb 8 (5 + session_ttl) then some (to_session_user ann) else none))
unfolding find first_where
login_sound_example =
    login_sound same verify "" attempt "::1" "u" 4 5 fresh (to_session_user ann) 8 (refl, tt)
      (refl, tt) good_login
