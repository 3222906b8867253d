-- ===== src/Tests/Client.antt =====
-- The cache keys, the shell, the formats and the files on concrete data.
use Prim.Native.String
use mooring_line_management.Base.{◌≡◌, ◌↔◌, refl, String, true, false, Option, none, some}
use mooring_line_management.Int.{pos}
use mooring_line_management.Api.Http.{resolved}
use mooring_line_management.Api.Keys.{
  LineFilters, lines, layout, line, inspections, move_line, turn_line, log_inspection,
  is_stale_after,
}
use mooring_line_management.Api.Refresh.{is_stale_after-line}
use mooring_line_management.Shell.{shore, NavItem}
use mooring_line_management.Shell.Vessels.{null_list, type_error, vessel_id, vessel_id-throws_iff}
use mooring_line_management.Format.{age}
use mooring_line_management.Format.Ages.{Honest, age-Honest}
use mooring_line_management.Files.{file_to_base64, size_unit}
use mooring_line_management.Files.Sizes.{Fits, size_unit-Fits}
use mooring_line_management.Files.Payload.{file_to_base64-append}

abbrev no_filters : LineFilters
no_filters = record { line_type_id = none; condition = none; placement = none; q = none }

is_stale_after-line_example :
    (is_stale_after (move_line (some "v")) (lines (some "v") no_filters) ≡ true)
    × (is_stale_after (move_line (some "v")) (layout (some "v")) ≡ true)
    × (is_stale_after (turn_line "l") (lines (some "v") no_filters) ≡ true)
    × (is_stale_after (turn_line "l") (layout (some "v")) ≡ true)
    × (is_stale_after (turn_line "l") (line (some "l")) ≡ true)
    × (is_stale_after (log_inspection "l") (lines (some "v") no_filters) ≡ true)
    × (is_stale_after (log_inspection "l") (layout (some "v")) ≡ true)
    × (is_stale_after (log_inspection "l") (line (some "l")) ≡ true)
    × (is_stale_after (log_inspection "l") (inspections (some "l")) ≡ true)
is_stale_after-line_example = is_stale_after-line (some "v") "l" no_filters

abbrev admin_page : NavItem
admin_page = record {
  to = "/permissions";
  label = "Permissions";
  shore_only = false;
  admin_only = true;
}

vessel_id-throws_iff_example :
    (vessel_id shore none none null_list ≡ type_error)
    ↔ ((shore ≡ shore) × (◌≡◌ {A = Option String} none none) × (null_list ≡ null_list))
vessel_id-throws_iff_example = vessel_id-throws_iff shore none none null_list

age-Honest_example : Honest 800 (age (some (pos 800)))
age-Honest_example = age-Honest 800

size_unit-Fits_example : Fits 2048 (size_unit 2048)
size_unit-Fits_example = size_unit-Fits 2048

file_to_base64-append_example :
    file_to_base64 (resolved (String.◌++◌ "data:" (String.◌++◌ "," "aGk="))) ≡ resolved "aGk="
file_to_base64-append_example =
    file_to_base64-append "data:" "aGk=" (refl, (refl, (refl, (refl, (refl, tt)))))
