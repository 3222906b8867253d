-- ===== src/Files/Sizes.antt =====
-- The unit that a document's size is shown in.
use mooring_line_management.Base.{
  ℕ, zero, suc, ◌≤◌, ◌<◌, ◌≡◌, refl, leb, false, ◌+◌, ◌*◌, arith, inl, inr, Bool-cases,
}
use mooring_line_management.Files.{too_large, climb, size_unit}

-- The scale fits the size: a size is below 1024 in its unit, unless that is the last one, and at least 1
-- unless it is the first.
abbrev pub Fits : ℕ → ℕ × ℕ → Type 0
Fits n (zero, scale) = (scale ≡ 1) × (n < 1024)
Fits n (suc zero, scale) = (scale ≡ 1024) × (1024 ≤ n) × (n < 1_048_576)
Fits n (suc (suc zero), scale) = (scale ≡ 1_048_576) × (1_048_576 ≤ n) × (n < 1_073_741_824)
Fits n (suc (suc (suc i)), scale) = (i ≡ 0) × (scale ≡ 1_073_741_824) × (1_073_741_824 ≤ n)

-- `humanSize` takes the largest unit, up to gigabytes, of which the document has at least one.
pub size_unit-Fits : (n : ℕ) → Fits n (size_unit n)
unfolding size_unit climb too_large
size_unit-Fits n = elim (Bool-cases (leb 1024 n)) [
  | inr a ↦ rw a (refl, ground arith)
  | inl a ↦ elim (Bool-cases (leb 1_048_576 n)) [
    | inr b ↦ rw (a, b) (refl, ground arith, ground arith)
    | inl b ↦ elim (Bool-cases (leb 1_073_741_824 n)) [
      | inr c ↦ rw (a, b, c) (refl, ground arith, ground arith)
      | inl c ↦ rw (a, b, c) (refl, refl, ground arith)
    ]
  ]
]

-- The place of the last unit is the most rounds that are left.
climb_ended :
    (fuel bytes i scale : ℕ) → 3 ≤ fuel + i → too_large bytes (climb fuel bytes (i, scale)) ≡ false
unfolding climb too_large
climb_ended zero bytes i scale h = ground arith
climb_ended (suc fuel) bytes i scale h =
    ground (arith, climb_ended fuel bytes (suc i) (scale * 1024))

climb_enough :
    (a b bytes i scale : ℕ)
    → 3 ≤ a + i
    → 3 ≤ b + i
    → climb a bytes (i, scale) ≡ climb b bytes (i, scale)
unfolding climb too_large
climb_enough zero zero bytes i scale h k = refl
climb_enough zero (suc b) bytes i scale h k = ground arith
climb_enough (suc a) zero bytes i scale h k = ground arith
climb_enough (suc a) (suc b) bytes i scale h k =
    ground (arith, climb_enough a b bytes (suc i) (scale * 1024))

-- The loop of `humanSize` ends by its test after at most three rounds, whatever the size: with more
-- rounds allowed nothing changes.
pub climb_stops :
    (fuel bytes : ℕ)
    → 3 ≤ fuel
    → (climb fuel bytes (0, 1) ≡ size_unit bytes) × (too_large bytes (size_unit bytes) ≡ false)
unfolding size_unit
climb_stops fuel bytes h = (
  climb_enough fuel 3 bytes 0 1 (omega arith) (omega arith),
  climb_ended 3 bytes 0 1 (omega arith),
)
