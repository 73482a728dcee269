-- ===== src/Store/Cameras.antt =====
-- src/store.rs, `camera_for_location`: the camera of a register, with the fallbacks of its location and
-- of all locations.
pub mod Precedence
use square_uni_fi_protect_in.Common.{
  ℕ, Bool, ◌&&◌, ◌||◌, Option, none, some, List, [], ◌∷◌, String, leb, if◌then◌else◌, str_eq,
  str_is_empty,
}
use square_uni_fi_protect_in.Table.{select_where}
use square_uni_fi_protect_in.Schema.{CameraMappingEntry}

-- ORDER BY rank LIMIT 1.
unfoldable pub min_by {ℓ} : {R : Type ℓ} → (R → ℕ) → List R → Option R
min_by rank [] = none
min_by rank (r ∷ rows) = elim (min_by rank rows) [
  | none ↦ some r
  | some best ↦ if leb (rank r) (rank best) then some r else some best
]

abbrev pub is_exact : String → String → CameraMappingEntry → Bool
is_exact location device m = str_eq m.location_id location && str_eq m.device_id device

abbrev pub is_location_default : String → CameraMappingEntry → Bool
is_location_default location m = str_eq m.location_id location && str_is_empty m.device_id

abbrev pub is_wildcard : CameraMappingEntry → Bool
is_wildcard m = str_eq m.location_id "*" && str_is_empty m.device_id

-- The CASE expression of the ORDER BY clause.
abbrev pub mapping_rank : String → String → CameraMappingEntry → ℕ
mapping_rank location device m =
    if is_exact location device m then 0 else if is_location_default location m then 1 else 2

unfoldable pub camera_for_location :
    List CameraMappingEntry → String → String → Option CameraMappingEntry
camera_for_location camera_map location device = min_by (mapping_rank location device) (
    select_where
      (λ m. is_exact location device m || is_location_default location m || is_wildcard m)
      camera_map)
