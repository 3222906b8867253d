-- ===== src/Dashboard.antt =====
-- web/src/features/dashboard/Dashboard.tsx: what the overview shows at all, the segments of the condition
-- donut, and the bars of the trend. A quotient of counts is kept as its two parts: the segments are
-- measured in parts of the ring of which there are `total`, the bars in parts of the track of which
-- there are `most`.
pub mod Charts
use mooring_line_management.Base.{
  ℕ, zero, suc, ◌+◌, max, String, Bool, true, false, ◌||◌, Option, none, some, List, [], ◌∷◌, ltb,
  truthy, map, if◌then◌else◌,
}
use mooring_line_management.Schema.{OverTrendPoint}

pub data View (A : Type 0) : Type 0 where
  select_vessel loading_overview : View A
  overview : A → View A

unfoldable pub dashboard :
    {A : Type 0} → (vessel_id : Option String) → (is_loading : Bool) → Option A → View A
dashboard none is_loading o = select_vessel
dashboard (some id) is_loading none = if truthy id then loading_overview else select_vessel
dashboard (some id) is_loading (some o) =
    if truthy id then (if is_loading then loading_overview else overview o) else select_vessel

pub data Color : Type 0 where
  good monitor action : Color

pub record Segment : Type 0 where
  pub color : Color
  pub offset : ℕ
  pub len : ℕ

-- The loop of `segs.map`, with `offset` in place of the variable; a segment of no lines is left out.
segments_from : (offset : ℕ) → List (ℕ × Color) → List Segment
segments_from offset [] = []
segments_from offset ((value, color) ∷ rest) =
    let after = segments_from (offset + value) rest in
    if ltb 0 value
    then record { color = color; offset = offset; len = value } ∷ after
    else segments_from offset rest

unfoldable pub segments : (goods monitors actions : ℕ) → List Segment
unfolding segments_from
segments goods monitors actions =
    if ltb 0 (goods + monitors + actions)
    then segments_from 0 ((goods, good) ∷ (monitors, monitor) ∷ (actions, action) ∷ [])
    else []

-- `Math.max(1, ...points.map((p) => p.inspections))`
unfoldable pub most_inspections : List OverTrendPoint → ℕ
most_inspections [] = 1
most_inspections (p ∷ ps) = max p.inspections (most_inspections ps)

-- A bar: its height of `most`, and the part of it that needs action, of its own height.
pub record Bar : Type 0 where
  pub month : String
  pub height : ℕ
  pub most : ℕ
  pub has_action : Bool
  pub action_part : ℕ × ℕ

bar : ℕ → OverTrendPoint → Bar
bar most p = record {
  month = p.month;
  height = p.inspections;
  most = most;
  has_action = ltb 0 p.action;
  action_part = if ltb 0 p.inspections then (p.action, p.inspections) else (0, 1);
}

unfoldable pub bars : List OverTrendPoint → List Bar
unfolding most_inspections bar
bars points = map (bar (most_inspections points)) points
