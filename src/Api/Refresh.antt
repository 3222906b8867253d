-- ===== src/Api/Refresh.antt =====
-- Which pages are refetched after a mutation.
use mooring_line_management.Base.{◌≡◌, refl, String, true, false, Option, none, some, eq_refl}
use mooring_line_management.Api.Keys.{
  LineFilters, lines, layout, line, products, catalogue_products, inspections, key, move_line,
  turn_line, log_inspection, create_product, invalidated, is_stale_after,
}

-- Wherever a line was moved, turned or inspected, every register list of whatever filters and the deck
-- layout of the vessel are refetched; a turn and an inspection also refetch the line's record.
pub is_stale_after-line :
    (vessel : Option String) (id : String) (f : LineFilters)
    → (is_stale_after (move_line vessel) (lines vessel f) ≡ true)
      × (is_stale_after (move_line vessel) (layout vessel) ≡ true)
      × (is_stale_after (turn_line id) (lines vessel f) ≡ true)
      × (is_stale_after (turn_line id) (layout vessel) ≡ true)
      × (is_stale_after (turn_line id) (line (some id)) ≡ true)
      × (is_stale_after (log_inspection id) (lines vessel f) ≡ true)
      × (is_stale_after (log_inspection id) (layout vessel) ≡ true)
      × (is_stale_after (log_inspection id) (line (some id)) ≡ true)
      × (is_stale_after (log_inspection id) (inspections (some id)) ≡ true)
unfolding is_stale_after key invalidated
is_stale_after-line none id f =
    simp (eq_refl id) (refl, refl, refl, refl, refl, refl, refl, refl, refl)
is_stale_after-line (some v) id f =
    simp (eq_refl id, eq_refl v) (refl, refl, refl, refl, refl, refl, refl, refl, refl)

-- Two lists of the same products have different keys: a product that the catalogue creates is refetched
-- there, and not by the dialog that registers a line; and a move does not refetch the line's record.
is_stale_after-missed :
    (vessel : Option String) (id : String)
    → (is_stale_after create_product catalogue_products ≡ true)
      × (is_stale_after create_product products ≡ false)
      × (is_stale_after (move_line vessel) (line (some id)) ≡ false)
unfolding is_stale_after key invalidated
is_stale_after-missed none id = (refl, refl, refl)
is_stale_after-missed (some v) id = (refl, refl, refl)
