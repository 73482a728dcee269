-- ===== src/Web/Login/Access.antt =====
-- src/web.rs: what a login needs to succeed.
use square_uni_fi_protect_in.Common.{
  ℕ, ◌≡◌, ◌≤◌, refl, Bool, true, false, ◌||◌, none, some, List, [], ◌∷◌, String, arith,
  if◌then◌else◌, ltb, length, str_eq, str_eq_iff, str_len, Bool-cases, inl, inr, Option-cases,
  AppResult-cases, ok, err, structured, ◌+◌, ◌==◌, ◌&&◌, ap, sym, ◌∙◌, leb, trim,
  eq_ignore_ascii_case,
}
use square_uni_fi_protect_in.Table.{find, first_where, select_where, first_where-holds, IsUnique}
use square_uni_fi_protect_in.Accounts.{
  Accounts, LoginUser, SessionUser, setup_complete, user_for_login, create_session, UserRow,
  session_key, session_ttl, session_user, to_session_user,
}
use square_uni_fi_protect_in.Accounts.Sessions.{IsUniqueId}
use square_uni_fi_protect_in.Accounts.Identity.{first_where-own, user_for_login_lem, login_session}
use square_uni_fi_protect_in.Web.Login.{
  FailureEntry, LoginBody, WebState, failure_key, login_max_failures, is_recent, is_empty,
  prune_login_failures, check_throttle, authenticate, login,
}

find-prune-none :
    (key : String) (now : ℕ) (failures : List FailureEntry)
    → find failure_key key failures ≡ none
    → find failure_key key (prune_login_failures now failures) ≡ none
unfolding find prune_login_failures
find-prune-none key now [] e = refl
find-prune-none key now (x ∷ failures) e = elim (Bool-cases (str_eq x.key key)) [
  | inl m ↦ ground (arith, e, m)
  | inr m ↦ ground (arith, m, find-prune-none key now failures (ground (arith, e, m)))
]

-- Pruning keeps the recent attempts of an address.
find-prune :
    (key : String) (now : ℕ) (failures : List FailureEntry)
    → IsUnique failure_key failures
    → find failure_key key (prune_login_failures now failures)
      ≡ (elim (find failure_key key failures) [
        | none ↦ none
        | some e ↦
            let kept = select_where (is_recent now) e.attempts in
            if is_empty kept then none else some (record e { attempts = kept })
      ])
unfolding find prune_login_failures
find-prune key now [] u = refl
find-prune key now (x ∷ failures) u = elim (Bool-cases (str_eq x.key key)) [
  | inl m ↦
      ground (arith, m, find-prune-none key now failures (rw ((str_eq_iff x.key key).0 m) at u.0))
  | inr m ↦ ground (arith, m, find-prune key now failures u.1)
]

long-is_empty : (ts : List ℕ) → login_max_failures ≤ length ts → is_empty ts ≡ false
long-is_empty [] h = absurd (omega (arith, h))
long-is_empty (t ∷ ts) h = refl

module _ (hash_session_token : String → String) (verify_password : String → String → Bool)
    (dummy_password_hash : String) (body : LoginBody) (client_ip token : String) (now : ℕ)
    (state : WebState) (who : SessionUser) where
  -- A login that succeeds has read an account, verified its password and created a session.
  authenticate_sound :
      (authenticate hash_session_token verify_password dummy_password_hash body client_ip token now
          state).0
        ≡ ok who
      → (a : LoginUser) × (db' : Accounts) × (user_for_login body.username state.accounts ≡ some a)
        × (verify_password body.password a.password_hash ≡ true)
        × (create_session hash_session_token token a.id a.auth_revision client_ip now state.accounts
            ≡ ok (who, db'))
        × ((authenticate hash_session_token verify_password dummy_password_hash body client_ip token
              now state).1.accounts
            ≡ db')
  unfolding authenticate
  authenticate_sound e = elim (Option-cases (user_for_login body.username state.accounts)) [
    | inl unknown ↦ absurd (ground (arith, e, unknown))
    | inr (a, known) ↦ elim (Bool-cases (verify_password body.password a.password_hash)) [
      | inr wrong ↦ absurd (ground (arith, e, known, wrong))
      | inl right ↦
          elim (AppResult-cases (
            create_session hash_session_token token a.id a.auth_revision client_ip now
              state.accounts)) [
                | inl (x, refused) ↦ absurd (ground (arith, e, known, right, refused))
                | inr (made, opened) ↦ (
                  a,
                  made.1,
                  known,
                  right,
                  ground (arith, e, known, right, opened),
                  ground (arith, known, right, opened),
                )
              ]
    ]
  ]

  authenticate_opens :
      (at : ℕ)
      → IsUnique session_key state.accounts.sessions
      → IsUniqueId state.accounts.users
      → (authenticate hash_session_token verify_password dummy_password_hash body client_ip token
          now state).0
        ≡ ok who
      → (o : UserRow) × (first_where (λ u. u.id == o.id) state.accounts.users ≡ some o)
        × (o.enabled ≡ true)
        × (eq_ignore_ascii_case o.username (trim body.username) ≡ true)
        × (verify_password body.password o.password_hash ≡ true)
        × (who ≡ to_session_user o)
        × ((session_user hash_session_token token at
              (authenticate hash_session_token verify_password dummy_password_hash body client_ip
                token now state).1.accounts).0
            ≡ (if leb at (now + session_ttl) then some who else none))
  authenticate_opens at u ids e =
      let r = authenticate_sound e in
      let read = user_for_login_lem body.username state.accounts r.0 r.2 in
      let o = read.0 in
      let own = first_where-own _ state.accounts.users o ids read.1 in
      let fits =
        first_where-holds
          (λ (x : UserRow). eq_ignore_ascii_case x.username (trim body.username) && x.enabled)
          state.accounts.users o read.1 in
      let opened =
        login_session hash_session_token token client_ip now at r.0 o who state.accounts r.1 u ids
          own read.2 r.4 in
      (
        o,
        own,
        ground (arith, fits),
        ground (arith, fits),
        ap (λ (a : LoginUser). verify_password body.password a.password_hash) (sym read.2) ∙ r.3,
        opened.0,
        ap (λ db. (session_user hash_session_token token at db).0) r.5 ∙ opened.1,
      )

module _ (hash_session_token : String → String) (verify_password : String → String → Bool)
    (dummy_password_hash : String) (body : LoginBody) (client_ip token : String) (now later : ℕ)
    (state : WebState) where
  -- With one entry per address, after the set-up and for texts within their bounds: an address
  -- with at least five failures within the last minute is turned away whatever its password, and
  -- the accounts stay as they are.
  pub lockout_refuses :
      (e : FailureEntry)
      → IsUnique failure_key state.login_failures
      → find failure_key client_ip state.login_failures ≡ some e
      → login_max_failures ≤ length (select_where (is_recent now) e.attempts)
      → (ltb 256 (str_len body.password) || ltb 64 (str_len body.username)) ≡ false
      → setup_complete state.accounts ≡ true
      → login hash_session_token verify_password dummy_password_hash body client_ip token now later
          state
        ≡ (
          err structured,
          record state { login_failures = prune_login_failures now state.login_failures },
        )
  unfolding login check_throttle
  lockout_refuses e u found many short done =
      let kept = select_where (is_recent now) e.attempts in
      let entry : find failure_key client_ip (prune_login_failures now state.login_failures)
          ≡ some (record e { attempts = kept }) =
        ground (
          arith,
          find-prune client_ip now state.login_failures u,
          found,
          long-is_empty kept many,
        ) in
      rw (short, done) (rw entry (ground (arith, many)))

  -- With unique token hashes and ids of users: a login succeeds only for an enabled user whose name
  -- is the one given, but for its case and the blanks around it, and whose stored hash the password
  -- fits. It returns that user, and leaves the token standing for that user for twelve hours and
  -- for nobody afterwards.
  pub login_sound :
      (who : SessionUser) (at : ℕ)
      → IsUnique session_key state.accounts.sessions
      → IsUniqueId state.accounts.users
      → (login hash_session_token verify_password dummy_password_hash body client_ip token now later
          state).0
        ≡ ok who
      → (o : UserRow) × (first_where (λ u. u.id == o.id) state.accounts.users ≡ some o)
        × (o.enabled ≡ true)
        × (eq_ignore_ascii_case o.username (trim body.username) ≡ true)
        × (verify_password body.password o.password_hash ≡ true)
        × (who ≡ to_session_user o)
        × ((session_user hash_session_token token at
              (login hash_session_token verify_password dummy_password_hash body client_ip token now
                later state).1.accounts).0
            ≡ (if leb at (later + session_ttl) then some who else none))
  unfolding login
  login_sound who at u ids e =
      let checked = record state {
        login_failures = (check_throttle client_ip now state.login_failures).1;
      } in
      let passed : (login hash_session_token verify_password dummy_password_hash body client_ip
            token now later state)
          ≡ authenticate hash_session_token verify_password dummy_password_hash body client_ip token
              later checked =
        ground (arith, e) in
      rw passed (
        authenticate_opens hash_session_token verify_password dummy_password_hash body client_ip
          token later checked who at u ids (ground (arith, e)))
