-- ===== src/Table/Laws.antt =====
-- UPDATE, DELETE, COUNT and SELECT with a WHERE clause, and what they do to a list of rows.
use square_uni_fi_protect_in.Common.{
  ◌≡◌, true, All, Bool-cases, inl, inr, ℕ, ◌+◌, Bool, Option, none, some, List, [], ◌∷◌,
  if◌then◌else◌, arith,
}

module _ {ℓ} {R : Type ℓ} where
  -- UPDATE … SET f WHERE p.
  unfoldable pub update_where : (R → Bool) → (R → R) → List R → List R
  update_where p f [] = []
  update_where p f (r ∷ rows) = (if p r then f r else r) ∷ update_where p f rows

  -- The number of rows that an UPDATE or a DELETE with WHERE p reports.
  unfoldable pub count_where : (R → Bool) → List R → ℕ
  count_where p [] = 0
  count_where p (r ∷ rows) = (if p r then 1 else 0) + count_where p rows

  -- DELETE … WHERE p.
  unfoldable pub delete_where : (R → Bool) → List R → List R
  delete_where p [] = []
  delete_where p (r ∷ rows) = let rest = delete_where p rows in if p r then rest else r ∷ rest

  -- SELECT … WHERE p.
  unfoldable pub select_where : (R → Bool) → List R → List R
  select_where p [] = []
  select_where p (r ∷ rows) = let rest = select_where p rows in if p r then r ∷ rest else rest

  -- SELECT … WHERE p LIMIT 1, as `query_row(…).optional()` reads it.
  unfoldable pub first_where : (R → Bool) → List R → Option R
  first_where p [] = none
  first_where p (r ∷ rows) = if p r then some r else first_where p rows

-- The selected rows satisfy the condition, and whatever all rows do.
pub select_where-All {ℓ κ} :
    {R : Type ℓ} (P : R → Type κ) (p : R → Bool) (rows : List R)
    → All P rows
    → All (λ r. P r × (p r ≡ true)) (select_where p rows)
unfolding select_where
select_where-All P p [] h = tt
select_where-All P p (r ∷ rows) h = elim (Bool-cases (p r)) [
  | inl e ↦ rw e ((h.0, e), select_where-All P p rows h.1)
  | inr e ↦ rw e (select_where-All P p rows h.1)
]

-- The row found satisfies the condition.
pub first_where-holds {ℓ} :
    {R : Type ℓ} (p : R → Bool) (rows : List R) (r : R) → first_where p rows ≡ some r → p r ≡ true
unfolding first_where
first_where-holds p [] r e = cc
first_where-holds p (x ∷ rows) r e = ground (arith, e, first_where-holds p rows r)
