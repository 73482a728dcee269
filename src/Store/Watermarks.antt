-- ===== src/Store/Watermarks.antt =====
-- src/store.rs and src/sync.rs: up to which time the payments of a location have been polled, and where the
-- next poll begins.
use square_uni_fi_protect_in.Common.{
  ◌≡◌, refl, false, Option, none, some, List, [], ◌∷◌, ◌++◌, String, ℤ, pos, ◌-ℤ◌, arith,
  if◌then◌else◌, str_eq, str_eq_iff, str_eq_sym, is_negative, max_ℤ, Bool-cases, Option-cases, inl,
  inr, AppResult, ok, unprocessable, refuse_if, ◌>>◌,
}
use mathlib.Core.Option
use square_uni_fi_protect_in.Table.{find, update_where, find-append, find-update_row}
use square_uni_fi_protect_in.Schema.{WatermarkRow, watermark_key}

unfoldable pub square_poll_watermark : String → List WatermarkRow → Option ℤ
square_poll_watermark location_id rows =
    Option.map (λ w. w.polled_through_ms) (find watermark_key location_id rows)

-- INSERT … ON CONFLICT(location_id) DO UPDATE SET polled_through_ms=MAX(…).
unfoldable pub advance_square_poll_watermark :
    String → ℤ → List WatermarkRow → AppResult (List WatermarkRow)
advance_square_poll_watermark location_id boundary_ms rows = do
  refuse_if (is_negative boundary_ms) unprocessable
  ok (elim (find watermark_key location_id rows) [
    | none ↦ rows ++ record { location_id = location_id; polled_through_ms = boundary_ms } ∷ []
    | some old ↦
        update_where (λ w. str_eq w.location_id location_id)
          (λ w. record w { polled_through_ms = max_ℤ w.polled_through_ms boundary_ms }) rows
  ])

-- BACKFILL_HOURS, a day, and the overlap of five minutes, in milliseconds.
unfoldable pub poll_begin : Option ℤ → ℤ → ℤ
poll_begin none boundary = boundary -ℤ pos 86_400_000
poll_begin (some through) boundary = through -ℤ pos 300_000

-- A boundary that is not negative is accepted. The watermark of its location then is the boundary, or
-- the old watermark where that is later, so that it never goes back; other locations keep theirs.
pub watermark_exact :
    (location_id : String) (boundary_ms : ℤ) (rows : List WatermarkRow)
    → is_negative boundary_ms ≡ false
    → (rows' : List WatermarkRow) × (advance_square_poll_watermark location_id boundary_ms rows
        ≡ ok rows')
      × ((k : String)
          → square_poll_watermark k rows' ≡ (
              if str_eq k location_id
              then some (elim (square_poll_watermark location_id rows) [
                | none ↦ boundary_ms
                | some through ↦ max_ℤ through boundary_ms
              ])
              else square_poll_watermark k rows))
unfolding advance_square_poll_watermark square_poll_watermark
watermark_exact location_id boundary_ms rows valid =
    elim (Option-cases (find watermark_key location_id rows)) [
      | inl e ↦
          let row : WatermarkRow = record {
            location_id = location_id;
            polled_through_ms = boundary_ms;
          } in
          (
            rows ++ row ∷ [],
            rw (valid, e) refl,
            λ k. elim (Bool-cases (str_eq k location_id)) [
              | inl m ↦
                  let absent : find watermark_key k rows ≡ none =
                    rw ((str_eq_iff k location_id).0 m) e in
                  ground (
                    arith,
                    e,
                    m,
                    absent,
                    find-append watermark_key k rows row,
                    str_eq_sym k location_id,
                  )
              | inr m ↦
                  ground
                    (arith, e, m, find-append watermark_key k rows row, str_eq_sym k location_id)
            ],
          )
      | inr (old, e) ↦
          let raise : WatermarkRow → WatermarkRow =
            λ w. record w { polled_through_ms = max_ℤ w.polled_through_ms boundary_ms } in
          (
            update_where (λ w. str_eq w.location_id location_id) raise rows,
            rw (valid, e) refl,
            λ k. elim (Bool-cases (str_eq k location_id)) [
              | inl m ↦
                  let found : find watermark_key k rows ≡ some old =
                    rw ((str_eq_iff k location_id).0 m) e in
                  ground (
                    arith,
                    e,
                    m,
                    found,
                    find-update_row watermark_key location_id raise k rows (λ w. refl),
                  )
              | inr m ↦
                  ground (
                    arith,
                    e,
                    m,
                    find-update_row watermark_key location_id raise k rows (λ w. refl),
                  )
            ],
          )
    ]
