-- ===== src/Store/Oauth/Once.antt =====
-- src/store.rs: an authorization state is used at most once.
use square_uni_fi_protect_in.Common.{
  ℕ, ◌+◌, ◌*◌, ◌≡◌, refl, Bool, true, false, not, ◌&&◌, ◌||◌, List, [], ◌∷◌, ◌++◌, String, arith,
  ltb, leb, any, is_some, str_eq, Bool-cases, inl, inr, All, AppResult, ok, err,
}
use square_uni_fi_protect_in.Table.{delete_where, count_where, find}
use square_uni_fi_protect_in.Schema.{second}
use square_uni_fi_protect_in.Store.Oauth.{
  OauthStateRow, state_key, store_oauth_state, consume_oauth_state,
}

-- What happens to the table of states: a link is given out, a state comes back, or all are cleared.
pub data OauthEvent : Type 0 where
  stores : String → ℕ → OauthEvent
  consumes : String → ℕ → OauthEvent
  clears : OauthEvent

abbrev pub stores_other : (String → String) → String → OauthEvent → Bool
stores_other hash state (stores other now) = not (str_eq (hash other) (hash state))
stores_other hash state (consumes other now) = true
stores_other hash state clears = true

abbrev pub or_same : List OauthStateRow → AppResult (List OauthStateRow) → List OauthStateRow
or_same states (ok states') = states'
or_same states (err e) = states

unfoldable pub oauth_step : (String → String) → OauthEvent → List OauthStateRow → List OauthStateRow
oauth_step hash (stores state now) states = or_same states (store_oauth_state hash state now states)
oauth_step hash (consumes state now) states = (consume_oauth_state hash state now states).1
oauth_step hash clears states = []

unfoldable pub oauth_run :
    (String → String) → List OauthEvent → List OauthStateRow → List OauthStateRow
oauth_run hash [] states = states
oauth_run hash (e ∷ events) states = oauth_run hash events (oauth_step hash e states)

abbrev has_hash : String → OauthStateRow → Bool
has_hash h s = str_eq s.state_hash h

any-delete_where :
    (h : String) (q : OauthStateRow → Bool) (states : List OauthStateRow)
    → any (has_hash h) states ≡ false
    → any (has_hash h) (delete_where q states) ≡ false
unfolding delete_where
any-delete_where h q [] e = refl
any-delete_where h q (s ∷ states) e = ground (arith, e, any-delete_where h q states)

any-append :
    (h : String) (states : List OauthStateRow) (row : OauthStateRow)
    → any (has_hash h) (states ++ row ∷ []) ≡ (any (has_hash h) states || has_hash h row)
any-append h [] row = ground arith
any-append h (s ∷ states) row = ground (arith, any-append h states row)

none_left :
    (h : String) (now : ℕ) (states : List OauthStateRow)
    → any (has_hash h) (
        delete_where
          (λ s. leb s.expires_at now)
          (delete_where (λ s. str_eq s.state_hash h && ltb now s.expires_at) states))
      ≡ false
unfolding delete_where
none_left h now [] = refl
none_left h now (s ∷ states) = ground (arith, none_left h now states)

count-absent :
    (h : String) (now : ℕ) (states : List OauthStateRow)
    → any (has_hash h) states ≡ false
    → count_where (λ s. str_eq s.state_hash h && ltb now s.expires_at) states ≡ 0
unfolding count_where
count-absent h now [] e = refl
count-absent h now (s ∷ states) e = ground (arith, e, count-absent h now states)

module _ (hash : String → String) (state : String) where
  step-absent :
      (event : OauthEvent) (states : List OauthStateRow)
      → stores_other hash state event ≡ true
      → any (has_hash (hash state)) states ≡ false
      → any (has_hash (hash state)) (oauth_step hash event states) ≡ false
  unfolding oauth_step store_oauth_state consume_oauth_state
  step-absent (stores other now) states o e =
      let live = delete_where (λ (s : OauthStateRow). leb s.expires_at now) states in
      elim (Bool-cases (is_some (find state_key (hash other) live))) [
        | inl taken ↦ rw taken e
        | inr free ↦ rw free (
            any-delete_where (hash state) _ _ (
              ground (
                arith,
                o,
                any-append (hash state) live (record {
                  state_hash = hash other;
                  created_at = now;
                  expires_at = now + 600 * second;
                }),
                any-delete_where (hash state) (λ s. leb s.expires_at now) states e,
              )))
      ]
  step-absent (consumes other now) states o e =
      any-delete_where (hash state) _ _ (any-delete_where (hash state) _ states e)
  step-absent clears states o e = refl

  run-absent :
      (events : List OauthEvent) (states : List OauthStateRow)
      → All (λ e. stores_other hash state e ≡ true) events
      → any (has_hash (hash state)) states ≡ false
      → any (has_hash (hash state)) (oauth_run hash events states) ≡ false
  unfolding oauth_run
  run-absent [] states o e = e
  run-absent (x ∷ events) states o e =
      run-absent events (oauth_step hash x states) o.1 (step-absent x states o.0 e)

  -- Once a state came back, valid or not, it is refused when it comes back again, whatever happens
  -- in between, as long as no link with a state of the same hash is given out.
  pub oauth_state_once :
      (now later : ℕ) (events : List OauthEvent) (states : List OauthStateRow)
      → All (λ e. stores_other hash state e ≡ true) events
      → (consume_oauth_state hash state later
          (oauth_run hash events (consume_oauth_state hash state now states).1)).0
        ≡ false
  unfolding consume_oauth_state
  oauth_state_once now later events states o =
      rw
        (count-absent (hash state) later
          (oauth_run hash events (consume_oauth_state hash state now states).1)
          (run-absent events (consume_oauth_state hash state now states).1 o
            (none_left (hash state) now states)))
        refl
