-- ===== src/Accounts/Logins.antt =====
-- src/store.rs: logins that race with a reset of the password.
use square_uni_fi_protect_in.Common.{
  ℕ, ◌≡◌, refl, true, false, ◌||◌, none, some, List, [], ◌∷◌, String, arith, ltb, leb, ◌==◌,
  Bool-cases, inl, inr, err, conflict, str_is_empty, str_len,
}
use square_uni_fi_protect_in.Table.{first_where, update_where}
use square_uni_fi_protect_in.Accounts.{
  UserRow, Accounts, change_password, reset_user_password, may_log_in, create_session,
}
use square_uni_fi_protect_in.Accounts.Sessions.{IsUniqueId, reset_tables}

-- After the reset, no row of the user has an old revision.
none-may_log_in :
    (id revision : ℕ) (password_hash : String) (users : List UserRow)
    → IsUniqueId users
    → (elim (first_where (λ o. o.id == id) users) [
      | none ↦ true
      | some o ↦ leb revision o.auth_revision
    ])
      ≡ true
    → first_where
        (may_log_in id revision)
        (update_where (λ u. u.id == id) (change_password password_hash) users)
      ≡ none
unfolding first_where update_where change_password
none-may_log_in id revision password_hash [] u h = refl
none-may_log_in id revision password_hash (o ∷ users) u h = elim (Bool-cases (o.id == id)) [
  | inl m ↦
      let same : o.id ≡ id = ground (arith, m) in
      ground (
        arith,
        h,
        m,
        none-may_log_in id revision password_hash users u.1 (rw (rw same at u.0) refl),
      )
  | inr m ↦
      ground (arith, m, none-may_log_in id revision password_hash users u.1 (ground (arith, m, h)))
]

-- With unique ids of users: a login whose password was checked before the password was reset, and
-- hence against a revision no newer than the one at the reset, is refused with a conflict after
-- the reset, from any valid client address.
pub reset_fences_login :
    (hash_session_token : String → String) (token : String) (id revision : ℕ) (client_ip : String)
    (now : ℕ) (password_hash : String) (db : Accounts) (o : UserRow)
    → IsUniqueId db.users
    → first_where (λ u. u.id == id) db.users ≡ some o
    → leb revision o.auth_revision ≡ true
    → (str_is_empty client_ip || ltb 128 (str_len client_ip)) ≡ false
    → create_session hash_session_token token id revision client_ip now
        (reset_user_password id password_hash db).1
      ≡ err conflict
unfolding create_session
reset_fences_login hash_session_token token id revision client_ip now password_hash db o u e old
      valid =
    rw valid (
      rw (reset_tables hash_session_token token now db id password_hash (rw e refl)).1
        (rw (none-may_log_in id revision password_hash db.users u (rw e old)) refl))
