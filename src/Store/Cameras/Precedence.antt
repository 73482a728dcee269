-- ===== src/Store/Cameras/Precedence.antt =====
-- Which mapping `camera_for_location` picks.
use square_uni_fi_protect_in.Common.{
  ℕ, ◌≡◌, refl, Bool, false, Option, none, some, List, [], ◌∷◌, String, arith, Option-cases, inl,
  inr,
}
use square_uni_fi_protect_in.Table.{first_where-holds, first_where, select_where}
use square_uni_fi_protect_in.Schema.{CameraMappingEntry}
use square_uni_fi_protect_in.Store.Cameras.{
  min_by, is_exact, is_location_default, is_wildcard, mapping_rank, camera_for_location,
}

abbrev pub or_else {ℓ} : {A : Type ℓ} → Option A → Option A → Option A
or_else none o = o
or_else (some a) o = some a

-- A row found by one test fails another that no row passes.
first_where-none {ℓ} :
    {R : Type ℓ} (p q : R → Bool) (rows : List R) (r : R)
    → first_where p rows ≡ none
    → first_where q rows ≡ some r
    → p r ≡ false
unfolding first_where
first_where-none p q [] r h e = cc
first_where-none p q (x ∷ rows) r h e = ground (arith, h, e, first_where-none p q rows r)

module _ (location device : String) where
  -- The register's own mapping, else the one of its location, else the one of all locations.
  abbrev pub preferred : List CameraMappingEntry → Option CameraMappingEntry
  preferred rows =
      or_else (first_where (is_exact location device) rows)
        (or_else (first_where (is_location_default location) rows) (first_where is_wildcard rows))

  abbrev preferred_rank : List CameraMappingEntry → ℕ
  preferred_rank rows = elim (first_where (is_exact location device) rows) [
    | some a ↦ 0
    | none ↦ elim (first_where (is_location_default location) rows) [ some b ↦ 1 | none ↦ 2 ]
  ]

  rank-preferred :
      (rows : List CameraMappingEntry) (m : CameraMappingEntry)
      → preferred rows ≡ some m
      → mapping_rank location device m ≡ preferred_rank rows
  rank-preferred rows m e = elim (Option-cases (first_where (is_exact location device) rows)) [
    | inl a ↦ elim (Option-cases (first_where (is_location_default location) rows)) [
      | inl b ↦ ground (
        arith,
        a,
        b,
        e,
        first_where-none (is_exact location device) is_wildcard rows m a,
        first_where-none (is_location_default location) is_wildcard rows m b,
      )
      | inr (y, b) ↦ ground (
        arith,
        a,
        b,
        e,
        first_where-none (is_exact location device) (is_location_default location) rows m a,
        first_where-holds (is_location_default location) rows m,
      )
    ]
    | inr (x, a) ↦ ground (arith, a, e, first_where-holds (is_exact location device) rows m)
  ]

  -- The camera of a register is the one of its own mapping; without one, that of its location; without one,
  -- that of all locations; and there is none if no mapping applies.
  pub camera_precedence :
      (rows : List CameraMappingEntry) → camera_for_location rows location device ≡ preferred rows
  unfolding camera_for_location first_where min_by select_where
  camera_precedence [] = refl
  camera_precedence (x ∷ rows) = elim (Option-cases (preferred rows)) [
    | inl e ↦ ground (arith, e, camera_precedence rows)
    | inr (m, e) ↦ ground (arith, e, camera_precedence rows, rank-preferred rows m e)
  ]
