-- ===== src/Tests/Thousandths.antt =====
-- Numbers as thousandths, which hold every literal of the deck page exactly.
use mooring_line_management.Base.{ℕ, ◌/◌, ◌≡◌, refl, true, false, ltb, arith}
use mooring_line_management.Number.{Number}

pub lt_asymm_thousandths : (a b : ℕ) → ltb a b ≡ true → ltb b a ≡ false
lt_asymm_thousandths a b h = ground arith

pub lt_antisymm_thousandths : (a b : ℕ) → ltb a b ≡ false → ltb b a ≡ false → a ≡ b
lt_antisymm_thousandths a b h k = ground arith

pub edges_thousandths : (a : ℕ) → ltb a 450 ≡ true → ltb 550 a ≡ false
edges_thousandths a h = ground arith

instance abbrev pub thousandths : Number ℕ
thousandths = record {
  lt = ltb;
  zero = 0;
  one = 1000;
  half = 500;
  port_edge = 450;
  starboard_edge = 550;
  divide = λ a n. a / n;
  lt_asymm = lt_asymm_thousandths;
  lt_antisymm = lt_antisymm_thousandths;
  zero-lt-one = refl;
  zero-lt-half = refl;
  half-lt-one = refl;
  edge-lt-half = refl;
  half-lt-edge = refl;
  edge-lt-edge = edges_thousandths;
}
