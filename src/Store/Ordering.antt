-- ===== src/Store/Ordering.antt =====
-- ORDER BY and LIMIT: a stable insertion sort, and the clamped limits of src/store.rs.
use Prim.Native.Nat.{min, max}
use square_uni_fi_protect_in.Common.{
  ℕ, ◌+◌, ◌≡◌, ◌≤◌, refl, Bool, true, ◌||◌, List, [], ◌∷◌, ℤ, pos, negsuc, if◌then◌else◌, any, take,
  arith, zero, suc, All, All-mono, Bool-cases, inl, inr, false,
}
use square_uni_fi_protect_in.Table.{count_where}

-- SUM over the rows.
abbrev pub weigh {ℓ} : {R : Type ℓ} → (R → ℕ) → List R → ℕ
weigh f [] = 0
weigh f (r ∷ rows) = f r + weigh f rows

module _ {ℓ} {R : Type ℓ} (le : R → R → Bool) where
  unfoldable pub insert_ordered : R → List R → List R
  insert_ordered r [] = r ∷ []
  insert_ordered r (x ∷ rows) =
      let rest = insert_ordered r rows in if le r x then r ∷ x ∷ rows else x ∷ rest

  unfoldable pub order_by : List R → List R
  unfolding insert_ordered
  order_by [] = []
  order_by (r ∷ rows) = insert_ordered r (order_by rows)

  any-insert_ordered :
      (p : R → Bool) (r : R) (rows : List R) → any p (insert_ordered r rows) ≡ (p r || any p rows)
  unfolding insert_ordered
  any-insert_ordered p r [] = refl
  any-insert_ordered p r (x ∷ rows) = ground (arith, any-insert_ordered p r rows)

  -- Ordering neither drops nor adds a row.
  pub any-order_by : (p : R → Bool) (rows : List R) → any p (order_by rows) ≡ any p rows
  unfolding order_by
  any-order_by p [] = refl
  any-order_by p (r ∷ rows) =
      ground (arith, any-insert_ordered p r (order_by rows), any-order_by p rows)

  -- Every row stands before those that it is before in the order.
  abbrev pub IsSorted : List R → Type 0
  IsSorted [] = Unit {0}
  IsSorted (r ∷ rows) = All (λ x. le r x ≡ true) rows × IsSorted rows

  pub count-insert_ordered :
      (p : R → Bool) (r : R) (rows : List R)
      → count_where p (insert_ordered r rows) ≡ count_where p (r ∷ rows)
  unfolding insert_ordered count_where
  count-insert_ordered p r [] = refl
  count-insert_ordered p r (x ∷ rows) = ground (arith, count-insert_ordered p r rows)

  -- Ordering keeps how often each row occurs.
  pub count-order_by :
      (p : R → Bool) (rows : List R) → count_where p (order_by rows) ≡ count_where p rows
  unfolding order_by count_where
  count-order_by p [] = refl
  count-order_by p (r ∷ rows) =
      ground (arith, count-insert_ordered p r (order_by rows), count-order_by p rows)

  All-insert_ordered :
      (P : R → Type 0) (r : R) (rows : List R) → P r → All P rows → All P (insert_ordered r rows)
  unfolding insert_ordered
  All-insert_ordered P r [] h g = (h, tt)
  All-insert_ordered P r (x ∷ rows) h g = elim (Bool-cases (le r x)) [
    | inl e ↦ rw e (h, g)
    | inr e ↦ rw e (g.0, All-insert_ordered P r rows h g.1)
  ]

  module _ (trans : (x y z : R) → le x y ≡ true → le y z ≡ true → le x z ≡ true)
      (total : (x y : R) → le x y ≡ false → le y x ≡ true) where
    insert_ordered-IsSorted :
        (r : R) (rows : List R) → IsSorted rows → IsSorted (insert_ordered r rows)
    unfolding insert_ordered
    insert_ordered-IsSorted r [] h = (tt, tt)
    insert_ordered-IsSorted r (x ∷ rows) h = elim (Bool-cases (le r x)) [
      | inl e ↦
          rw e (
            (e, All-mono (λ y. le x y ≡ true) (λ y. le r y ≡ true) rows (λ y. trans r x y e) h.0),
            h,
          )
      | inr e ↦ rw e (
        All-insert_ordered (λ y. le x y ≡ true) r rows (total r x e) h.0,
        insert_ordered-IsSorted r rows h.1,
      )
    ]

    -- A total order sorts.
    pub order_by-IsSorted : (rows : List R) → IsSorted (order_by rows)
    unfolding order_by
    order_by-IsSorted [] = tt
    order_by-IsSorted (r ∷ rows) =
        insert_ordered-IsSorted r (order_by rows) (order_by-IsSorted rows)

  pub All-order_by : (P : R → Type 0) (rows : List R) → All P rows → All P (order_by rows)
  unfolding order_by
  All-order_by P [] h = tt
  All-order_by P (r ∷ rows) h = All-insert_ordered P r (order_by rows) h.0 (All-order_by P rows h.1)

  weigh-insert_ordered :
      (f : R → ℕ) (r : R) (rows : List R) → weigh f (insert_ordered r rows) ≡ f r + weigh f rows
  unfolding insert_ordered
  weigh-insert_ordered f r [] = refl
  weigh-insert_ordered f r (x ∷ rows) = ground (arith, weigh-insert_ordered f r rows)

  -- Ordering keeps the sum of the rows' weights.
  pub weigh-order_by : (f : R → ℕ) (rows : List R) → weigh f (order_by rows) ≡ weigh f rows
  unfolding order_by
  weigh-order_by f [] = refl
  weigh-order_by f (r ∷ rows) =
      omega (arith, weigh-insert_ordered f r (order_by rows), weigh-order_by f rows)

module _ {ℓ} {R : Type ℓ} where
  pub any-take :
      (p : R → Bool) (n : ℕ) (rows : List R) → any p (take n rows) ≡ true → any p rows ≡ true
  any-take p zero rows h = absurd (cc)
  any-take p (suc n) [] h = cc
  any-take p (suc n) (r ∷ rows) h = ground (arith, any-take p n rows)

-- `limit.clamp(1, top)`.
unfoldable pub clamp_limit : ℤ → ℕ → ℕ
clamp_limit (pos n) top = min (max n 1) top
clamp_limit (negsuc n) top = min 1 top

pub clamp_limit-le : (limit : ℤ) (top : ℕ) → clamp_limit limit top ≤ top
unfolding clamp_limit
clamp_limit-le (pos n) top = omega arith
clamp_limit-le (negsuc n) top = omega arith
