-- ===== src/Accounts/Identity.antt =====
-- src/store.rs: the user whom a login reads by name, and the session it creates for that user.
use square_uni_fi_protect_in.Common.{
  ℕ, ◌≡◌, Bool, none, some, List, [], ◌∷◌, String, arith, if◌then◌else◌, Bool-cases, inl, inr,
  Option-cases, AppResult-cases, ok, ◌+◌, ◌==◌, ◌&&◌, ap, leb, trim, eq_ignore_ascii_case,
}
use square_uni_fi_protect_in.Table.{first_where, IsUnique}
use square_uni_fi_protect_in.Accounts.{
  Accounts, LoginUser, SessionUser, user_for_login, create_session, UserRow, session_key,
  session_ttl, session_user, to_login_user, to_session_user,
}
use square_uni_fi_protect_in.Accounts.Sessions.{
  created_session, session_lifetime, first_where-id, IsUniqueId,
}
use square_uni_fi_protect_in.Accounts.Names.{normalize_username}

-- A user who is found by a condition is the user of that id.
pub first_where-own :
    (p : UserRow → Bool) (users : List UserRow) (o : UserRow)
    → IsUniqueId users
    → first_where p users ≡ some o
    → first_where (λ x. x.id == o.id) users ≡ some o
unfolding first_where
first_where-own p [] o u e = cc
first_where-own p (x ∷ users) o u e = elim (Bool-cases (p x)) [
  | inl hit ↦
      let same : x ≡ o = ground (arith, e, hit) in
      ground (arith, e, hit, ap (λ (y : UserRow). y.id) same)
  | inr miss ↦
      let found : first_where (λ (y : UserRow). y.id == o.id) users ≡ some o =
        first_where-own p users o u.1 (ground (arith, e, miss)) in
      elim (Bool-cases (x.id == o.id)) [
        | inl m ↦
            let same : x.id ≡ o.id = ground (arith, m) in
            absurd (ground (arith, found, rw same at u.0))
        | inr m ↦ ground (arith, m, found)
      ]
]

normalize_username-trim :
    (value name : String) → normalize_username value ≡ ok name → name ≡ trim value
unfolding normalize_username
normalize_username-trim value name e = ground (arith, e)

-- The account that a login reads: it is enabled and has the name, but for the case of letters.
pub user_for_login_lem :
    (value : String) (db : Accounts) (a : LoginUser)
    → user_for_login value db ≡ some a
    → (o : UserRow) × (first_where
          (λ u. eq_ignore_ascii_case u.username (trim value) && u.enabled)
          db.users
        ≡ some o)
      × (a ≡ to_login_user o)
unfolding user_for_login
user_for_login_lem value db a e = elim (AppResult-cases (normalize_username value)) [
  | inl (x, refused) ↦ absurd (ground (arith, e, refused))
  | inr (name, passed) ↦
      let same = normalize_username-trim value name passed in
      elim (Option-cases (
        first_where (λ (x : UserRow). eq_ignore_ascii_case x.username name && x.enabled)
          db.users)) [
            | inl f ↦ absurd (ground (arith, e, passed, f))
            | inr (o, f) ↦ (o, rw same at f, ground (arith, e, passed, f))
          ]
]

-- The session that a login creates is that of the user it has read.
pub login_session :
    (hash_session_token : String → String) (token client_ip : String) (now later : ℕ)
    (a : LoginUser) (o : UserRow) (who : SessionUser) (db db' : Accounts)
    → IsUnique session_key db.sessions
    → IsUniqueId db.users
    → first_where (λ x. x.id == o.id) db.users ≡ some o
    → a ≡ to_login_user o
    → create_session hash_session_token token a.id a.auth_revision client_ip now db ≡ ok (who, db')
    → (who ≡ to_session_user o)
      × ((session_user hash_session_token token later db').0
          ≡ (if leb later (now + session_ttl) then some who else none))
login_session hash_session_token token client_ip now later a o who db db' u ids own same e =
    let made =
      created_session hash_session_token token now db a.id a.auth_revision client_ip who db' e in
    (
      ground (
        arith,
        made.1,
        made.3,
        own,
        same,
        first_where-id a.id (λ (x : UserRow). x.enabled && x.auth_revision == a.auth_revision)
            db.users ids,
      ),
      session_lifetime hash_session_token token now db a.id a.auth_revision client_ip later who db'
          u ids e,
    )
