-- ===== src/Web/Login/Throttle.antt =====
-- src/web.rs: the table of login failures stays small under any interleaving of requests.
use square_uni_fi_protect_in.Common.{
  ℕ, ◌+◌, ◌≡◌, ◌≤◌, refl, Bool, false, ◌&&◌, List, [], ◌∷◌, String, arith, if◌then◌else◌, leb,
  length, length-append, is_none, is_some_and, str_eq, Bool-cases, inl, inr, All,
}
use square_uni_fi_protect_in.Table.{find, delete_where, select_where}
use square_uni_fi_protect_in.Web.Login.{
  FailureEntry, failure_key, login_max_failures, login_failure_key_limit, is_recent, is_empty,
  prune_login_failures, check_throttle, push_failure, record_failure, clear_failures,
}

-- One of the three parts of a request, with the address and the time.
pub data LoginEvent : Type 0 where
  checks : String → ℕ → LoginEvent
  fails : String → ℕ → LoginEvent
  succeeds : String → LoginEvent

unfoldable pub react : LoginEvent → List FailureEntry → List FailureEntry
react (checks key now) failures = (check_throttle key now failures).1
react (fails key now) failures = (record_failure key now failures).1
react (succeeds key) failures = clear_failures key failures

unfoldable pub react_all : List LoginEvent → List FailureEntry → List FailureEntry
react_all [] failures = failures
react_all (e ∷ events) failures = react_all events (react e failures)

abbrev pub IsShort : FailureEntry → Type 0
IsShort e = length e.attempts ≤ login_max_failures

-- At most five attempts are kept for an address, and at most ten thousand addresses.
abbrev pub IsBounded : List FailureEntry → Type 0
IsBounded failures = All IsShort failures × (length failures ≤ login_failure_key_limit)

length-select_where {ℓ} :
    {R : Type ℓ} (p : R → Bool) (rows : List R) → length (select_where p rows) ≤ length rows
unfolding select_where
length-select_where p [] = omega arith
length-select_where p (r ∷ rows) = ground (arith, length-select_where p rows)

length-delete_where {ℓ} :
    {R : Type ℓ} (p : R → Bool) (rows : List R) → length (delete_where p rows) ≤ length rows
unfolding delete_where
length-delete_where p [] = omega arith
length-delete_where p (r ∷ rows) = ground (arith, length-delete_where p rows)

delete_where-All {ℓ κ} :
    {R : Type ℓ} (P : R → Type κ) (p : R → Bool) (rows : List R)
    → All P rows
    → All P (delete_where p rows)
unfolding delete_where
delete_where-All P p [] h = tt
delete_where-All P p (r ∷ rows) h = elim (Bool-cases (p r)) [
  | inl e ↦ rw e (delete_where-All P p rows h.1)
  | inr e ↦ rw e (h.0, delete_where-All P p rows h.1)
]

prune-IsBounded :
    (now : ℕ) (failures : List FailureEntry)
    → All IsShort failures
    → All IsShort (prune_login_failures now failures)
      × (length (prune_login_failures now failures) ≤ length failures)
unfolding prune_login_failures
prune-IsBounded now [] h = (tt, omega arith)
prune-IsBounded now (e ∷ failures) h =
    let rest = prune-IsBounded now failures h.1 in
    let kept = length-select_where (is_recent now) e.attempts in
    elim (Bool-cases (is_empty (select_where (is_recent now) e.attempts))) [
      | inl m ↦ rw m (rest.0, ground (arith, rest.1))
      | inr m ↦ rw m ((ground (arith, kept, h.0), rest.0), ground (arith, rest.1))
    ]

-- An address that is not turned away has room for one more attempt.
push-All :
    (key : String) (now : ℕ) (failures : List FailureEntry)
    → All IsShort failures
    → is_some_and (find failure_key key failures) (λ e. leb login_max_failures (length e.attempts))
      ≡ false
    → All IsShort (push_failure key now failures)
unfolding push_failure find
push-All key now [] h room = (omega arith, tt)
push-All key now (e ∷ failures) h room = elim (Bool-cases (str_eq e.key key)) [
  | inl m ↦ rw m (ground (arith, room, m, length-append e.attempts (now ∷ [])), h.1)
  | inr m ↦ rw m (h.0, push-All key now failures h.1 (ground (arith, room, m)))
]

length-push_failure :
    (key : String) (now : ℕ) (failures : List FailureEntry)
    → length (push_failure key now failures)
      ≡ length failures + (if is_none (find failure_key key failures) then 1 else 0)
unfolding push_failure find
length-push_failure key now [] = refl
length-push_failure key now (e ∷ failures) = ground (arith, length-push_failure key now failures)

record_failure-IsBounded :
    (key : String) (now : ℕ) (failures : List FailureEntry)
    → IsBounded failures
    → IsBounded (record_failure key now failures).1
unfolding record_failure
record_failure-IsBounded key now failures h =
    let pruned = prune_login_failures now failures in
    let short = prune-IsBounded now failures h.0 in
    elim (Bool-cases
      (is_none (find failure_key key pruned) && leb login_failure_key_limit (length pruned))) [
        | inl full ↦ rw full (short.0, ground (arith, short.1, h.1))
        | inr room ↦
            elim (Bool-cases (
              is_some_and (find failure_key key pruned)
                (λ e. leb login_max_failures (length e.attempts)))) [
                  | inl locked ↦ rw (room, locked) (short.0, ground (arith, short.1, h.1))
                  | inr open_entry ↦
                      rw (room, open_entry)
                        (
                          push-All key now pruned short.0 open_entry,
                          ground (arith, short.1, h.1, room, length-push_failure key now pruned),
                        )
                ]
      ]

react-IsBounded :
    (event : LoginEvent) (failures : List FailureEntry)
    → IsBounded failures
    → IsBounded (react event failures)
unfolding react check_throttle clear_failures
react-IsBounded (checks key now) failures h =
    let short = prune-IsBounded now failures h.0 in (short.0, ground (arith, short.1, h.1))
react-IsBounded (fails key now) failures h = record_failure-IsBounded key now failures h
react-IsBounded (succeeds key) failures h = (
  delete_where-All IsShort (λ e. str_eq e.key key) failures h.0,
  ground (arith, length-delete_where (λ (e : FailureEntry). str_eq e.key key) failures, h.1),
)

-- However the parts of login requests interleave, a table of at most five attempts for an address
-- and at most ten thousand addresses stays one.
pub throttle-IsBounded :
    (events : List LoginEvent) (failures : List FailureEntry)
    → IsBounded failures
    → IsBounded (react_all events failures)
unfolding react_all
throttle-IsBounded [] failures h = h
throttle-IsBounded (e ∷ events) failures h =
    throttle-IsBounded events (react e failures) (react-IsBounded e failures h)
