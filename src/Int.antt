-- ===== src/Int.antt =====
-- Whole numbers with a sign over the native numbers, with the library's constructors, and their order.
use mooring_line_management.Base.{ℕ, ◌≡◌, refl, Bool, true, false, leb, arith}

pub data ℤ : Type 0 where
  pos : ℕ → ℤ
  -- `negsuc n` is `-(n + 1)`
  negsuc : ℕ → ℤ

abbrev pub int_le : ℤ → ℤ → Bool
int_le (pos m) (pos n) = leb m n
int_le (pos m) (negsuc n) = false
int_le (negsuc m) (pos n) = true
int_le (negsuc m) (negsuc n) = leb n m

pub int_le_total : (a b : ℤ) → int_le a b ≡ false → int_le b a ≡ true
int_le_total (pos m) (pos n) h = ground arith
int_le_total (pos m) (negsuc n) h = refl
int_le_total (negsuc m) (pos n) h = cc
int_le_total (negsuc m) (negsuc n) h = ground arith

pub int_le_trans : (a b c : ℤ) → int_le a b ≡ true → int_le b c ≡ true → int_le a c ≡ true
int_le_trans (pos k) (pos m) (pos n) h j = ground arith
int_le_trans (pos k) (pos m) (negsuc n) h j = cc
int_le_trans (pos k) (negsuc m) c h j = cc
int_le_trans (negsuc k) b (pos n) h j = refl
int_le_trans (negsuc k) (pos m) (negsuc n) h j = cc
int_le_trans (negsuc k) (negsuc m) (negsuc n) h j = ground arith
