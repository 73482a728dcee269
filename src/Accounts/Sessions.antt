-- ===== src/Accounts/Sessions.antt =====
-- src/store.rs: who a session token stands for, and for how long.
use square_uni_fi_protect_in.Common.{
  ℕ, ◌+◌, ◌≡◌, refl, Bool, true, false, ◌&&◌, Option, none, some, List, [], ◌∷◌, ◌++◌, String,
  arith, if◌then◌else◌, leb, ◌==◌, any, is_some, str_eq, str_eq_iff, str_eq_refl, Bool-cases, inl,
  inr, Option-cases, ok,
}
use mathlib.Core.Option
use square_uni_fi_protect_in.Table.{
  find, first_where, update_where, delete_where, IsUnique, find-delete_where, find-append,
  append-IsUnique, delete_where-IsUnique,
}
use square_uni_fi_protect_in.Accounts.{
  UserRow, SessionRow, SessionUser, Accounts, session_key, session_ttl, to_session_user,
  change_password, reset_user_password, enabled_owner, joined_user, is_dead, may_log_in,
  create_session, session_user,
}

-- The enabled user behind a session row at a given time.
abbrev pub owner_of : ℕ → List UserRow → Option SessionRow → Option UserRow
owner_of now users none = none
owner_of now users (some s) = if leb now s.expires_at then enabled_owner s users else none

any-first_where {ℓ} :
    {R : Type ℓ} (p : R → Bool) (rows : List R) → any p rows ≡ is_some (first_where p rows)
unfolding first_where
any-first_where p [] = refl
any-first_where p (r ∷ rows) = ground (arith, any-first_where p rows)

joined_user-absent :
    (h : String) (now : ℕ) (sessions : List SessionRow) (users : List UserRow)
    → find session_key h sessions ≡ none
    → joined_user h now sessions users ≡ none
unfolding find joined_user
joined_user-absent h now [] users e = refl
joined_user-absent h now (s ∷ sessions) users e = elim (Bool-cases (str_eq s.token_hash h)) [
  | inl m ↦ ground (arith, e, m)
  | inr m ↦ rw m (joined_user-absent h now sessions users (ground (arith, e, m)))
]

-- The query of the join reads the one session row of the token.
joined_user-find :
    (h : String) (now : ℕ) (sessions : List SessionRow) (users : List UserRow)
    → IsUnique session_key sessions
    → joined_user h now sessions users ≡ owner_of now users (find session_key h sessions)
unfolding find joined_user
joined_user-find h now [] users u = refl
joined_user-find h now (s ∷ sessions) users u = elim (Bool-cases (str_eq s.token_hash h)) [
  | inl m ↦ ground (
    arith,
    m,
    joined_user-absent h now sessions users (rw ((str_eq_iff s.token_hash h).0 m) at u.0),
  )
  | inr m ↦ rw m (joined_user-find h now sessions users u.1)
]

-- Dead sessions have no owner, so clearing them out does not change who a token stands for.
owner_of-clear :
    (h : String) (now : ℕ) (users : List UserRow) (sessions : List SessionRow)
    → IsUnique session_key sessions
    → owner_of now users (find session_key h (delete_where (is_dead now users) sessions))
      ≡ owner_of now users (find session_key h sessions)
owner_of-clear h now users sessions u =
    let kept = find-delete_where session_key (is_dead now users) h sessions u in
    elim (Option-cases (find session_key h sessions)) [
      | inl e ↦ ground (arith, kept, e)
      | inr (s, e) ↦
          ground (
            arith,
            kept,
            e,
            any-first_where (λ (o : UserRow). o.id == s.user_id && o.enabled) users,
          )
    ]

-- A changed password leaves alone whom a session belongs to.
owner-change_password :
    (s : SessionRow) (id : ℕ) (password_hash : String) (users : List UserRow)
    → Option.map to_session_user
        (enabled_owner s (update_where (λ u. u.id == id) (change_password password_hash) users))
      ≡ Option.map to_session_user (enabled_owner s users)
unfolding first_where update_where change_password
owner-change_password s id password_hash [] = refl
owner-change_password s id password_hash (o ∷ users) =
    ground (arith, owner-change_password s id password_hash users)

-- A token belongs to the user with a given id.
abbrev pub is_owned_by : ℕ → Option SessionRow → Bool
is_owned_by id none = false
is_owned_by id (some s) = s.user_id == id

module _ (hash_session_token : String → String) (token : String) (now : ℕ) (db : Accounts) where
  -- A token stands for the owner of its session, if that user is enabled and the session has not expired;
  -- with unique token hashes, clearing out dead sessions first does not change the answer.
  pub session_user_exact :
      IsUnique session_key db.sessions
      → (session_user hash_session_token token now db).0
        ≡ Option.map to_session_user
            (owner_of now db.users (find session_key (hash_session_token token) db.sessions))
  unfolding session_user
  session_user_exact u = ground (
    arith,
    joined_user-find (hash_session_token token) now
        (delete_where (is_dead now db.users) db.sessions) db.users
        (delete_where-IsUnique session_key (is_dead now db.users) db.sessions u),
    owner_of-clear (hash_session_token token) now db.users db.sessions u,
  )

-- The users' primary key.
abbrev pub IsUniqueId : List UserRow → Type 0
IsUniqueId [] = Unit {0}
IsUniqueId (u ∷ users) = (first_where (λ o. o.id == u.id) users ≡ none) × IsUniqueId users

first_where-absent :
    (id : ℕ) (q : UserRow → Bool) (users : List UserRow)
    → first_where (λ o. o.id == id) users ≡ none
    → first_where (λ o. o.id == id && q o) users ≡ none
unfolding first_where
first_where-absent id q [] e = refl
first_where-absent id q (o ∷ users) e = ground (arith, e, first_where-absent id q users)

-- Conditions on the user with a given id are read from the one row of that id.
pub first_where-id :
    (id : ℕ) (q : UserRow → Bool) (users : List UserRow)
    → IsUniqueId users
    → first_where (λ o. o.id == id && q o) users ≡ (elim (first_where (λ o. o.id == id) users) [
      | none ↦ none
      | some o ↦ if q o then some o else none
    ])
unfolding first_where
first_where-id id q [] u = refl
first_where-id id q (o ∷ users) u = elim (Bool-cases (o.id == id)) [
  | inl m ↦
      let same : o.id ≡ id = ground (arith, m) in
      ground (arith, m, first_where-absent id q users (rw same at u.0))
  | inr m ↦ rw m (first_where-id id q users u.1)
]

module _ (hash_session_token : String → String) (token : String) (now : ℕ) (db : Accounts)
    (id : ℕ) where
  pub reset_tables :
      (password_hash : String)
      → is_some (first_where (λ u. u.id == id) db.users) ≡ true
      → ((reset_user_password id password_hash db).1.sessions
          ≡ delete_where (λ s. s.user_id == id) db.sessions)
        × ((reset_user_password id password_hash db).1.users
            ≡ update_where (λ u. u.id == id) (change_password password_hash) db.users)
  unfolding reset_user_password
  reset_tables password_hash known =
      elim (Option-cases (first_where (λ (u : UserRow). u.id == id) db.users)) [
        | inl e ↦ absurd (ground (arith, e, known))
        | inr (u, e) ↦ (ground (arith, e), ground (arith, e))
      ]

  -- With unique token hashes: after the password of an existing user is reset, no session token of
  -- that user is valid any more, and every other token stands for whom it stood for before.
  pub reset_revokes :
      (password_hash : String)
      → IsUnique session_key db.sessions
      → is_some (first_where (λ u. u.id == id) db.users) ≡ true
      → (session_user hash_session_token token now (reset_user_password id password_hash db).1).0
        ≡ (if is_owned_by id (find session_key (hash_session_token token) db.sessions)
            then none
            else (session_user hash_session_token token now db).0)
  reset_revokes password_hash u known =
      let after_reset = (reset_user_password id password_hash db).1 in
      let tables = reset_tables password_hash known in
      let h = hash_session_token token in
      let deleted = find-delete_where session_key (λ s. s.user_id == id) h db.sessions u in
      rw (session_user_exact hash_session_token token now db u) (
        rw
          (session_user_exact hash_session_token token now after_reset
            (rw tables.0 (delete_where-IsUnique session_key (λ s. s.user_id == id) db.sessions u)))
          (rw (tables.0, tables.1, deleted)
            (elim (Option-cases (find session_key h db.sessions)) [
              | inl e ↦ ground (arith, e)
              | inr (s, e) ↦ ground (arith, e, owner-change_password s id password_hash db.users)
            ])))

  abbrev new_session : SessionRow
  new_session = record {
    token_hash = hash_session_token token;
    user_id = id;
    expires_at = now + session_ttl;
  }

  pub created_session :
      (revision : ℕ) (client_ip : String) (who : SessionUser) (db' : Accounts)
      → create_session hash_session_token token id revision client_ip now db ≡ ok (who, db')
      → (o : UserRow) × (first_where (may_log_in id revision) db.users ≡ some o)
        × (find session_key (hash_session_token token) db.sessions ≡ none)
        × (who ≡ to_session_user o)
        × (db'.sessions ≡ db.sessions ++ new_session ∷ [])
        × (db'.users ≡ db.users)
  unfolding create_session
  created_session revision client_ip who db' e =
      elim (Option-cases (first_where (may_log_in id revision) db.users)) [
        | inl a ↦ absurd (ground (arith, e, a))
        | inr (o, a) ↦
            elim (Option-cases (find session_key (hash_session_token token) db.sessions)) [
              | inl b ↦ (
                o,
                a,
                b,
                ground (arith, e, a, b),
                ground (arith, e, a, b),
                ground (arith, e, a, b),
              )
              | inr (s, b) ↦ absurd (ground (arith, e, a, b))
            ]
      ]

  -- A session lasts for twelve hours: until then its token stands, on the state that the login leaves,
  -- for the user who logged in, later for nobody. Token hashes and the ids of users are unique.
  pub session_lifetime :
      (revision : ℕ) (client_ip : String) (later : ℕ) (who : SessionUser) (db' : Accounts)
      → IsUnique session_key db.sessions
      → IsUniqueId db.users
      → create_session hash_session_token token id revision client_ip now db ≡ ok (who, db')
      → (session_user hash_session_token token later db').0
        ≡ (if leb later (now + session_ttl) then some who else none)
  session_lifetime revision client_ip later who db' u ids e =
      let made = created_session revision client_ip who db' e in
      let h = hash_session_token token in
      rw
        (session_user_exact hash_session_token token later db'
          (rw made.4 (append-IsUnique session_key db.sessions new_session made.2 u)))
        (rw (made.4, made.5, made.3, find-append session_key h db.sessions new_session)
          (ground (
            arith,
            made.1,
            made.2,
            str_eq_refl h,
            first_where-id id (λ o. o.enabled && o.auth_revision == revision) db.users ids,
            first_where-id id (λ o. o.enabled) db.users ids,
          )))
