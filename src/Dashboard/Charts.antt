-- ===== src/Dashboard/Charts.antt =====
-- The charts fill their frames and do not leave them.
use mooring_line_management.Base.{
  Aligned, map-Aligned, ◌⊎◌, ℕ, ◌+◌, ◌≤◌, ◌≡◌, refl, List, [], ◌∷◌, ltb, All, All-imp, arith, inl,
  inr, Bool-cases,
}
use mooring_line_management.Schema.{OverTrendPoint}
use mooring_line_management.Dashboard.{
  Color, good, monitor, action, Segment, segments_from, segments, most_inspections, Bar, bar, bars,
}

-- Segments that follow each other without gaps from one place to another, none of them empty.
abbrev pub Tiles : (start stop : ℕ) → List Segment → Type 0
Tiles start stop [] = start ≡ stop
Tiles start stop (s ∷ ss) = (s.offset ≡ start) × (1 ≤ s.len) × Tiles (start + s.len) stop ss

abbrev total_of : List (ℕ × Color) → ℕ
total_of [] = 0
total_of ((value, color) ∷ rest) = value + total_of rest

segments_from-Tiles :
    (offset stop : ℕ) (values : List (ℕ × Color))
    → offset + total_of values ≡ stop
    → Tiles offset stop (segments_from offset values)
unfolding segments_from
segments_from-Tiles offset stop [] h = omega (arith, h)
segments_from-Tiles offset stop ((value, color) ∷ rest) h = elim (Bool-cases (ltb 0 value)) [
  | inl e ↦
      rw e (refl, ground arith, segments_from-Tiles (offset + value) stop rest (omega (arith, h)))
  | inr e ↦ rw e (segments_from-Tiles offset stop rest (ground arith))
]

-- The donut's segments go once around the ring: each begins where the one before it ends, none is
-- empty, and together they are as long as there are lines with a condition.
pub segments-Tiles :
    (goods monitors actions : ℕ)
    → Tiles 0 (goods + monitors + actions) (segments goods monitors actions)
unfolding segments
segments-Tiles goods monitors actions = elim (Bool-cases (ltb 0 (goods + monitors + actions))) [
  | inl e ↦ rw e (
      segments_from-Tiles 0 (goods + monitors + actions)
        ((goods, good) ∷ (monitors, monitor) ∷ (actions, action) ∷ []) (omega arith))
  | inr e ↦ rw e (ground arith)
]

most_inspections-pos : (ps : List OverTrendPoint) → 1 ≤ most_inspections ps
unfolding most_inspections
most_inspections-pos [] = omega arith
most_inspections-pos (p ∷ ps) = omega (arith, most_inspections-pos ps)

most_inspections-le : (ps : List OverTrendPoint) → All (λ p. p.inspections ≤ most_inspections ps) ps
unfolding most_inspections
most_inspections-le [] = tt
most_inspections-le (p ∷ ps) = (
  omega arith,
  All-imp (λ q. q.inspections ≤ most_inspections ps) _ ps (λ q h. omega (arith, h))
      (most_inspections-le ps),
)

-- The bar of a month: as high as its inspections on a track that is not empty, and the part of it that
-- needs action, where there is a bar.
abbrev pub BarOf : OverTrendPoint → Bar → Type 0
BarOf p b =
    (b.month ≡ p.month)
    × (b.height ≡ p.inspections)
    × (1 ≤ b.most)
    × (b.height ≤ b.most)
    × (((1 ≤ p.inspections) × (b.action_part ≡ (p.action, p.inspections)))
        ⊎ ((p.inspections ≡ 0) × (b.action_part ≡ (0, 1))))

bar-BarOf : (most : ℕ) (p : OverTrendPoint) → 1 ≤ most → p.inspections ≤ most → BarOf p (bar most p)
unfolding bar
bar-BarOf most p k h = elim (Bool-cases (ltb 0 p.inspections)) [
  | inl e ↦ rw e (refl, refl, k, h, inl (ground arith, refl))
  | inr e ↦ rw e (refl, refl, k, h, inr (ground arith, refl))
]

-- Each month of the trend has one bar, in the same order, whose height is the month's inspections, on a
-- track that is nowhere shorter than the bar and never of height zero; the part of the bar that needs
-- action is the actions out of the inspections, and none where there was no inspection.
pub bars-Aligned : (points : List OverTrendPoint) → Aligned BarOf points (bars points)
unfolding bars
bars-Aligned points = map-Aligned BarOf (bar (most_inspections points)) points (
    All-imp _ _ points
      (λ p k. bar-BarOf (most_inspections points) p (most_inspections-pos points) k)
      (most_inspections-le points))
