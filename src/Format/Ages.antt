-- ===== src/Format/Ages.antt =====
-- The steps from days to months to years.
use mooring_line_management.Base.{
  ℕ, ◌+◌, ◌*◌, ◌/◌, ◌≤◌, ◌<◌, ◌≡◌, refl, some, ltb, arith, inl, inr, Bool-cases,
}
use mooring_line_management.Int.{pos}
use mooring_line_management.Format.{
  months, year_tenths, Age, unknown, in_days, in_months, in_year_tenths, age,
}

-- What an age label may say of a whole number of days.
abbrev pub Honest : ℕ → Age → Type 0
Honest d unknown = d ≡ 0
Honest d (in_days n) = (n ≡ d) × (1 ≤ d) × (d < 60)
Honest d (in_months m) =
    (60 ≤ d) × (2 ≤ m) × (m < 24) × (3044 * m ≤ 100 * d + 1522) × (100 * d < 3044 * m + 1522)
Honest d (in_year_tenths t) =
    (73_056 ≤ 100 * d + 1522)
    × (20 ≤ t)
    × (365_250 * t ≤ 10_000 * d + 182_625)
    × (10_000 * d < 365_250 * t + 182_625)

-- The label of an age of `d` days, for `d` not negative: a dash for none, exactly the days for one to
-- fifty-nine, from sixty days on two to twenty-three months that are off by at most half a month of
-- 30.44 days, and from 23.5 of these months on at least 2.0 years that are off by at most a twentieth of a
-- year of 365.25 days.
pub age-Honest : (d : ℕ) → Honest d (age (some (pos d)))
unfolding age months year_tenths
age-Honest d = elim (Bool-cases (ltb 0 d)) [
  | inr z ↦ rw z (ground arith)
  | inl z ↦ elim (Bool-cases (ltb d 60)) [
    | inl n ↦ rw (z, n) (refl, ground arith, ground arith)
    | inr n ↦ elim (Bool-cases (ltb ((50 * d + 761) / 1522) 24)) [
      | inl m ↦ rw (z, n, m) (ground arith, ground arith, ground arith, ground arith, ground arith)
      | inr m ↦ rw (z, n, m) (ground arith, ground arith, ground arith, ground arith)
    ]
  ]
]
