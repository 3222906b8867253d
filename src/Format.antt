-- ===== src/Format.antt =====
-- web/src/lib/format.ts and web/src/components/ui.tsx: ages, condition marks and badges. The divisors
-- 30.44 and 365.25 are taken exactly: no whole number of days lies halfway between two rounded values,
-- so `Math.round` and `toFixed(1)` are roundings of these quotients.
pub mod Ages
use mooring_line_management.Base.{
  ℕ, ◌+◌, ◌*◌, ◌/◌, ◌%◌, String, Bool, Option, none, some, [], ◌∷◌, ltb, str_eq, concat, show,
  truthy, or_else, or_undefined, if◌then◌else◌,
}
use mooring_line_management.Int.{ℤ, pos, negsuc}

-- `Math.round(days / 30.44)`: with `days / 30.44 = 25 * days / 761`.
unfoldable pub months : ℕ → ℕ
months days = (50 * days + 761) / 1522

-- Tenths of years, `10 * days / 365.25 = 40 * days / 1461`, rounded.
unfoldable pub year_tenths : ℕ → ℕ
year_tenths days = (80 * days + 1461) / 2922

pub data Age : Type 0 where
  unknown : Age
  in_days in_months : ℕ → Age
  in_year_tenths : ℕ → Age

unfoldable pub age : Option ℤ → Age
unfolding months year_tenths
age none = unknown
age (some (negsuc n)) = unknown
age (some (pos d)) =
    if ltb 0 d
    then if ltb d 60
      then in_days d
      else if ltb (months d) 24
      then in_months (months d)
      else in_year_tenths (year_tenths d)
    else unknown

abbrev pub age_text : Age → String
age_text unknown = "—"
age_text (in_days d) = concat (show d ∷ " d" ∷ [])
age_text (in_months m) = concat (show m ∷ " mo" ∷ [])
age_text (in_year_tenths t) = concat (show (t / 10) ∷ "." ∷ show (t % 10) ∷ " yr" ∷ [])

unfoldable pub age_label : Option ℤ → String
unfolding age
age_label days = age_text (age days)

-- `toLocaleDateString` is the browser's.
unfoldable pub date_label : (locale_date : String → String) → Option String → String
date_label locale_date none = "—"
date_label locale_date (some iso) = if truthy iso then locale_date iso else "—"

unfoldable pub cond_class : Option String → String
cond_class none = ""
cond_class (some c) =
    if str_eq c "Good"
    then "good"
    else if str_eq c "Monitor"
    then "monitor"
    else if str_eq c "Action"
    then "action"
    else ""

-- `StatusDot`: the class and the title of the dot.
unfoldable pub status_dot : Option String → String × String
unfolding cond_class
status_dot c =
    (concat ("dot " ∷ cond_class c ∷ []), or_else (or_undefined (or_else c "")) "no condition")

-- `LifecycleBadge`: the class of the badge.
unfoldable pub lifecycle_class : String → String
lifecycle_class status =
    if str_eq status "ordered"
    then "badge badge-ordered"
    else if str_eq status "active"
    then "badge badge-active"
    else if str_eq status "spare"
    then "badge badge-spare"
    else if str_eq status "retired"
    then "badge badge-retired"
    else "badge "
