-- ===== src/Web/Login.antt =====
-- src/web.rs: `login` and its throttle. The table of failures is in memory behind a mutex that the handler
-- takes three times, so requests interleave between the parts. Times are in the unit of the clock;
-- password verification and the hash of tokens are library code and parameters.
pub mod Throttle
pub mod Access
use square_uni_fi_protect_in.Common.{
  ℕ, ◌*◌, ◌-◌, Bool, true, false, not, ◌&&◌, ◌||◌, Option, none, some, List, [], ◌∷◌, ◌++◌, String,
  if◌then◌else◌, ltb, leb, length, is_none, is_some_and, unwrap_or, str_eq, str_len, AppError,
  AppResult, ok, err, structured, unauthorized, conflict,
}
use mathlib.Core.Option
use square_uni_fi_protect_in.Table.{find, delete_where, select_where}
use square_uni_fi_protect_in.Schema.{second}
use square_uni_fi_protect_in.Accounts.{
  Accounts, LoginUser, SessionUser, setup_complete, user_for_login, create_session,
}

-- The failed attempts from one address: an entry of `login_failures`.
pub record FailureEntry : Type 0 where
  pub key : String
  pub attempts : List ℕ

abbrev pub failure_key : FailureEntry → String
failure_key e = e.key

abbrev pub login_max_failures : ℕ
login_max_failures = 5

abbrev pub login_lockout : ℕ
login_lockout = 60 * second

abbrev pub login_failure_key_limit : ℕ
login_failure_key_limit = 10_000

-- `time.elapsed() < LOGIN_LOCKOUT_SECONDS`.
abbrev pub is_recent : ℕ → ℕ → Bool
is_recent now time = ltb (now - time) login_lockout

abbrev pub is_empty : List ℕ → Bool
is_empty [] = true
is_empty (t ∷ ts) = false

unfoldable pub prune_login_failures : ℕ → List FailureEntry → List FailureEntry
prune_login_failures now [] = []
prune_login_failures now (e ∷ failures) =
    let rest = prune_login_failures now failures in
    let kept = select_where (is_recent now) e.attempts in
    if is_empty kept then rest else record e { attempts = kept } ∷ rest

-- The first part: an address with too many failures is turned away, and a new address too when the
-- table is full.
unfoldable pub check_throttle :
    String → ℕ → List FailureEntry → AppResult (Unit {0}) × List FailureEntry
check_throttle key now failures =
    let pruned = prune_login_failures now failures in
    let attempts = find failure_key key pruned in
    (
      if (is_none attempts && leb login_failure_key_limit (length pruned))
            || is_some_and attempts (λ e. leb login_max_failures (length e.attempts))
          then err structured
          else ok tt,
      pruned,
    )

-- `failures.entry(key).or_default()` and `push`.
unfoldable pub push_failure : String → ℕ → List FailureEntry → List FailureEntry
push_failure key now [] = record { key = key; attempts = now ∷ [] } ∷ []
push_failure key now (e ∷ failures) =
    let rest = push_failure key now failures in
    if str_eq e.key key then record e { attempts = e.attempts ++ now ∷ [] } ∷ failures else e ∷ rest

-- The second part, after a wrong password: the failure is counted, unless other requests have filled
-- the table meanwhile.
unfoldable pub record_failure : String → ℕ → List FailureEntry → AppError × List FailureEntry
record_failure key now failures =
    let pruned = prune_login_failures now failures in
    let attempts = find failure_key key pruned in
    if is_none attempts && leb login_failure_key_limit (length pruned)
    then (structured, pruned)
    else if is_some_and attempts (λ e. leb login_max_failures (length e.attempts))
    then (structured, pruned)
    else (unauthorized, push_failure key now pruned)

-- The third part, after a login.
unfoldable pub clear_failures : String → List FailureEntry → List FailureEntry
clear_failures key failures = delete_where (λ e. str_eq e.key key) failures

pub record LoginBody : Type 0 where
  pub username : String
  pub password : String

pub record WebState : Type 0 where
  pub accounts : Accounts
  pub login_failures : List FailureEntry

module _ (hash_session_token : String → String) (verify_password : String → String → Bool)
    (dummy_password_hash : String) where
  -- The handler behind the throttle. An unknown name is checked against a dummy hash.
  unfoldable pub authenticate :
      LoginBody → String → String → ℕ → WebState → AppResult SessionUser × WebState
  authenticate body client_ip token now state =
      let account = user_for_login body.username state.accounts in
      let stored =
        unwrap_or (Option.map (λ (a : LoginUser). a.password_hash) account) dummy_password_hash in
      let password_valid = verify_password body.password stored in
      let failed = record_failure client_ip now state.login_failures in
      elim account [
        | none ↦ (err failed.0, record state { login_failures = failed.1 })
        | some a ↦
            if password_valid
            then elim (create_session hash_session_token token a.id a.auth_revision client_ip now
                state.accounts) [
                  | err e ↦ (err e, state)
                  | ok done ↦ (
                    ok done.0,
                    record {
                      accounts = done.1;
                      login_failures = clear_failures client_ip state.login_failures;
                    },
                  )
                ]
            else (err failed.0, record state { login_failures = failed.1 })
      ]

  -- The clock is read for the throttle and again after the password was verified.
  unfoldable pub login :
      LoginBody → String → String → ℕ → ℕ → WebState → AppResult SessionUser × WebState
  login body client_ip token now later state =
      let throttled = check_throttle client_ip now state.login_failures in
      let checked = record state { login_failures = throttled.1 } in
      if ltb 256 (str_len body.password) || ltb 64 (str_len body.username)
      then (err unauthorized, state)
      else if not (setup_complete state.accounts)
      then (err conflict, state)
      else elim throttled.0 [
        | err e ↦ (err e, checked)
        | ok passed ↦ authenticate body client_ip token later checked
      ]
