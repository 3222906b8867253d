-- ===== src/Tests/Dashboard.antt =====
-- The dashboard's charts on concrete counts.
use mooring_line_management.Base.{Aligned, List, [], ◌∷◌}
use mooring_line_management.Schema.{OverTrendPoint}
use mooring_line_management.Dashboard.{segments, bars}
use mooring_line_management.Dashboard.Charts.{Tiles, BarOf, segments-Tiles, bars-Aligned}

segments-Tiles_example : Tiles 0 5 (segments 3 0 2)
segments-Tiles_example = segments-Tiles 3 0 2

abbrev two_months : List OverTrendPoint
two_months =
    record { action = 1; inspections = 4; month = "Mar" }
    ∷ record { action = 0; inspections = 0; month = "Apr" }
    ∷ []

bars-Aligned_example : Aligned BarOf two_months (bars two_months)
bars-Aligned_example = bars-Aligned two_months
