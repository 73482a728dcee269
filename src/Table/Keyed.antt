-- ===== src/Table/Keyed.antt =====
-- A table with a text primary key: lookup by key, and what each statement does to it.
use square_uni_fi_protect_in.Common.{
  All, All-mono, str_eq_refl, ◌≡◌, refl, ◌∙◌, Bool, ◌&&◌, Option, none, some, List, [], ◌∷◌, ◌++◌,
  String, arith, if◌then◌else◌, str_eq, str_eq_iff, Bool-cases, inl, inr,
}
use mathlib.Core.Option
use square_uni_fi_protect_in.Table.Laws.{update_where, count_where, delete_where, first_where}

module _ {ℓ} {R : Type ℓ} (key : R → String) where
  -- SELECT … WHERE key = ?.
  unfoldable pub find : String → List R → Option R
  find k [] = none
  find k (r ∷ rows) = if str_eq (key r) k then some r else find k rows

  -- The primary key: no two rows share it.
  abbrev pub IsUnique : List R → Type ℓ
  IsUnique [] = Unit {ℓ}
  IsUnique (r ∷ rows) = (find (key r) rows ≡ none) × IsUnique rows

  pub find-key : (k : String) (rows : List R) (r : R) → find k rows ≡ some r → key r ≡ k
  unfolding find
  find-key k [] r e = ground arith
  find-key k (x ∷ rows) r e = ground (arith, find-key k rows r, str_eq_iff (key x) k)

  -- An update that leaves keys alone acts on the row that is found.
  pub find-update_where :
      (p : R → Bool) (f : R → R) (k : String) (rows : List R)
      → ((r : R) → key (f r) ≡ key r)
      → find k (update_where p f rows) ≡ Option.map (λ r. if p r then f r else r) (find k rows)
  unfolding find update_where
  find-update_where p f k [] h = refl
  find-update_where p f k (x ∷ rows) h = elim (Bool-cases (p x)) [
    | inl e ↦
        rw (e, h x)
          (elim (Bool-cases (str_eq (key x) k)) [
            | inl m ↦ rw m (rw e)
            | inr m ↦ rw m (find-update_where p f k rows h)
          ])
    | inr e ↦ rw e (elim (Bool-cases (str_eq (key x) k)) [
      | inl m ↦ rw m (rw e)
      | inr m ↦ rw m (find-update_where p f k rows h)
    ])
  ]

  pub find-delete_key :
      (j k : String) (rows : List R)
      → find k (delete_where (λ r. str_eq (key r) j) rows)
        ≡ (if str_eq k j then none else find k rows)
  unfolding find delete_where
  find-delete_key j k [] = ground arith
  find-delete_key j k (x ∷ rows) =
      ground (
        arith,
        find-delete_key j k rows,
        str_eq_iff (key x) j,
        str_eq_iff (key x) k,
        str_eq_iff k j,
      )

  pub find-append :
      (k : String) (rows : List R) (x : R)
      → find k (rows ++ x ∷ []) ≡ (elim (find k rows) [
        | some r ↦ some r
        | none ↦ if str_eq (key x) k then some x else none
      ])
  unfolding find
  find-append k [] x = refl
  find-append k (y ∷ rows) x = ground (arith, find-append k rows x)

  -- UPDATE … SET f WHERE key = j AND q.
  pub find-update_key :
      (j : String) (q : R → Bool) (f : R → R) (k : String) (rows : List R)
      → ((r : R) → key (f r) ≡ key r)
      → find k (update_where (λ r. str_eq (key r) j && q r) f rows) ≡ (
          if str_eq k j
          then Option.map (λ r. if q r then f r else r) (find k rows)
          else find k rows)
  find-update_key j q f k rows h =
      find-update_where (λ r. str_eq (key r) j && q r) f k rows h
      ∙ guarded (find k rows) (λ r. find-key k rows r)
    where
      guarded :
          (o : Option R)
          → ((r : R) → o ≡ some r → key r ≡ k)
          → Option.map (λ r. if str_eq (key r) j && q r then f r else r) o
            ≡ (if str_eq k j then Option.map (λ r. if q r then f r else r) o else o)
      guarded none g = ground arith
      guarded (some r) g = rw (g r refl) (ground arith)

  count-missing :
      (j : String) (q : R → Bool) (rows : List R)
      → find j rows ≡ none
      → count_where (λ r. str_eq (key r) j && q r) rows ≡ 0
  unfolding find count_where
  count-missing j q [] e = refl
  count-missing j q (x ∷ rows) e = ground (arith, count-missing j q rows)

  -- With a primary key the statement reports one row or none.
  pub count-key :
      (j : String) (q : R → Bool) (rows : List R)
      → IsUnique rows
      → count_where (λ r. str_eq (key r) j && q r) rows
        ≡ (elim (find j rows) [ none ↦ 0 | some r ↦ if q r then 1 else 0 ])
  unfolding find count_where
  count-key j q [] u = refl
  count-key j q (x ∷ rows) u = elim (Bool-cases (str_eq (key x) j)) [
    | inl e ↦ rw e (ground (arith, count-missing j q rows (rw ((str_eq_iff (key x) j).0 e) at u.0)))
    | inr e ↦ ground (arith, e, count-key j q rows u.1)
  ]

  find-none-delete :
      (p : R → Bool) (k : String) (rows : List R)
      → find k rows ≡ none
      → find k (delete_where p rows) ≡ none
  unfolding find delete_where
  find-none-delete p k [] e = refl
  find-none-delete p k (x ∷ rows) e = ground (arith, find-none-delete p k rows)

  -- DELETE … WHERE p, over unique keys.
  pub find-delete_where :
      (p : R → Bool) (k : String) (rows : List R)
      → IsUnique rows
      → find k (delete_where p rows)
        ≡ (elim (find k rows) [ none ↦ none | some r ↦ if p r then none else some r ])
  unfolding find delete_where
  find-delete_where p k [] u = refl
  find-delete_where p k (x ∷ rows) u = elim (Bool-cases (str_eq (key x) k)) [
    | inl e ↦
        rw e (ground (arith, e, find-none-delete p k rows (rw ((str_eq_iff (key x) k).0 e) at u.0)))
    | inr e ↦ rw e (ground (arith, e, find-delete_where p k rows u.1))
  ]

  pub update_where-IsUnique :
      (p : R → Bool) (f : R → R) (rows : List R)
      → ((r : R) → key (f r) ≡ key r)
      → IsUnique rows
      → IsUnique (update_where p f rows)
  unfolding update_where
  update_where-IsUnique p f [] h u = tt
  update_where-IsUnique p f (x ∷ rows) h u = (absent, update_where-IsUnique p f rows h u.1)
    where
      same : key (if p x then f x else x) ≡ key x
      same = elim (Bool-cases (p x)) [ inl e ↦ rw e (h x) | inr e ↦ rw e refl ]

      absent : find (key (if p x then f x else x)) (update_where p f rows) ≡ none
      absent = rw (same, find-update_where p f (key x) rows h, u.0) refl

  pub delete_where-IsUnique :
      (p : R → Bool) (rows : List R) → IsUnique rows → IsUnique (delete_where p rows)
  unfolding delete_where
  delete_where-IsUnique p [] u = tt
  delete_where-IsUnique p (x ∷ rows) u = elim (Bool-cases (p x)) [
    | inl e ↦ rw e (delete_where-IsUnique p rows u.1)
    | inr e ↦ rw e (find-none-delete p (key x) rows u.0, delete_where-IsUnique p rows u.1)
  ]

  pub append-IsUnique :
      (rows : List R) (x : R) → find (key x) rows ≡ none → IsUnique rows → IsUnique (rows ++ x ∷ [])
  unfolding find
  append-IsUnique [] x e u = (refl, tt)
  append-IsUnique (y ∷ rows) x e u = (
    rw (find-append (key y) rows x)
        (ground (arith, str_eq_iff (key x) (key y), str_eq_iff (key y) (key x))),
    append-IsUnique rows x (ground arith) u.1,
  )

  first_where-missing :
      (j : String) (q : R → Bool) (rows : List R)
      → find j rows ≡ none
      → first_where (λ r. str_eq (key r) j && q r) rows ≡ none
  unfolding find first_where
  first_where-missing j q [] e = refl
  first_where-missing j q (x ∷ rows) e = ground (arith, first_where-missing j q rows)

  -- SELECT … WHERE key = j AND q LIMIT 1.
  pub first_where-key :
      (j : String) (q : R → Bool) (rows : List R)
      → IsUnique rows
      → first_where (λ r. str_eq (key r) j && q r) rows
        ≡ (elim (find j rows) [ none ↦ none | some r ↦ if q r then some r else none ])
  unfolding find first_where
  first_where-key j q [] u = refl
  first_where-key j q (x ∷ rows) u = elim (Bool-cases (str_eq (key x) j)) [
    | inl e ↦
        rw e (ground (arith, first_where-missing j q rows (rw ((str_eq_iff (key x) j).0 e) at u.0)))
    | inr e ↦ rw e (first_where-key j q rows u.1)
  ]

  -- DELETE … WHERE key = j AND q.
  pub find-delete_key_where :
      (j : String) (q : R → Bool) (k : String) (rows : List R)
      → IsUnique rows
      → find k (delete_where (λ r. str_eq (key r) j && q r) rows) ≡ (
          if str_eq k j
          then (elim (find k rows) [ none ↦ none | some r ↦ if q r then none else some r ])
          else find k rows)
  find-delete_key_where j q k rows u =
      find-delete_where (λ r. str_eq (key r) j && q r) k rows u
      ∙ guarded (find k rows) (λ r. find-key k rows r)
    where
      guarded :
          (o : Option R)
          → ((r : R) → o ≡ some r → key r ≡ k)
          → (elim o [ none ↦ none | some r ↦ if str_eq (key r) j && q r then none else some r ]) ≡ (
              if str_eq k j
              then (elim o [ none ↦ none | some r ↦ if q r then none else some r ])
              else o)
      guarded none g = ground arith
      guarded (some r) g = rw (g r refl) (ground arith)

  -- UPDATE … SET f WHERE key = j.
  pub find-update_row :
      (j : String) (f : R → R) (k : String) (rows : List R)
      → ((r : R) → key (f r) ≡ key r)
      → find k (update_where (λ r. str_eq (key r) j) f rows)
        ≡ (if str_eq k j then Option.map f (find k rows) else find k rows)
  find-update_row j f k rows h =
      find-update_where (λ r. str_eq (key r) j) f k rows h
      ∙ guarded (find k rows) (λ r. find-key k rows r)
    where
      guarded :
          (o : Option R)
          → ((r : R) → o ≡ some r → key r ≡ k)
          → Option.map (λ r. if str_eq (key r) j then f r else r) o
            ≡ (if str_eq k j then Option.map f o else o)
      guarded none g = ground arith
      guarded (some r) g = rw (g r refl) (ground arith)

  -- With a primary key, every row is found under its own key.
  pub IsUnique-found : (rows : List R) → IsUnique rows → All (λ r. find (key r) rows ≡ some r) rows
  unfolding find
  IsUnique-found [] u = tt
  IsUnique-found (x ∷ rows) u = (
    rw (str_eq_refl (key x)) refl,
    All-mono (λ r. find (key r) rows ≡ some r) (λ r. find (key r) (x ∷ rows) ≡ some r) rows
        (λ r e. elim (Bool-cases (str_eq (key x) (key r))) [
          | inl same ↦ absurd (ground (arith, e, rw ((str_eq_iff (key x) (key r)).0 same) at u.0))
          | inr other ↦ rw other e
        ])
        (IsUnique-found rows u.1),
  )
