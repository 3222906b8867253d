-- ===== src/Base/Decimal.antt =====
-- The decimal digits of a number, as a template literal prints it.
use Prim.Native.Nat.{ℕ, zero, suc, ◌/◌, ◌%◌, ◌<◌, ◌≤◌}
use Prim.Native.String
use Prim.Native.String.{String, count}
use mathlib.Core.Path.{◌≡◌, refl, sym, ap, ◌∙◌}
use mathlib.Core.Logic.{inl, inr}
use native.Mathlib.Decide.{dec_lt}
use native.Mathlib.Omega.{arith}
use text.Mathlib.Text.{◌==◌ as str_eq}
use text.Mathlib.TextLemmas.{length-append, append_inj}
use mooring_line_management.Base.Tests.{ltb, if◌then◌else◌, Bool-cases}

abbrev digit : ℕ → String
digit zero = "0"
digit (suc zero) = "1"
digit (suc (suc zero)) = "2"
digit (suc (suc (suc zero))) = "3"
digit (suc (suc (suc (suc zero)))) = "4"
digit (suc (suc (suc (suc (suc zero))))) = "5"
digit (suc (suc (suc (suc (suc (suc zero)))))) = "6"
digit (suc (suc (suc (suc (suc (suc (suc zero))))))) = "7"
digit (suc (suc (suc (suc (suc (suc (suc (suc zero)))))))) = "8"
digit (suc (suc (suc (suc (suc (suc (suc (suc (suc n))))))))) = "9"

-- Each round takes off the last digit, so a number is fuel enough for itself.
emit : ℕ → ℕ → String
emit zero n = digit (n % 10)
emit (suc f) n =
    let longer = String.◌++◌ (emit f (n / 10)) (digit (n % 10)) in
    if ltb n 10 then digit n else longer

unfoldable pub show : ℕ → String
unfolding emit
show n = emit n n

show_example : show 2047 ≡ "2047"
unfolding show
show_example = refl

value : String → ℕ
value s =
    if str_eq s "0"
    then 0
    else if str_eq s "1"
    then 1
    else if str_eq s "2"
    then 2
    else if str_eq s "3"
    then 3
    else if str_eq s "4"
    then 4
    else if str_eq s "5"
    then 5
    else if str_eq s "6"
    then 6
    else if str_eq s "7"
    then 7
    else if str_eq s "8"
    then 8
    else 9

value-digit : (n : ℕ) → n < 10 → value (digit n) ≡ n
unfolding value
value-digit zero h = refl
value-digit (suc zero) h = refl
value-digit (suc (suc zero)) h = refl
value-digit (suc (suc (suc zero))) h = refl
value-digit (suc (suc (suc (suc zero)))) h = refl
value-digit (suc (suc (suc (suc (suc zero))))) h = refl
value-digit (suc (suc (suc (suc (suc (suc zero)))))) h = refl
value-digit (suc (suc (suc (suc (suc (suc (suc zero))))))) h = refl
value-digit (suc (suc (suc (suc (suc (suc (suc (suc zero)))))))) h = refl
value-digit (suc (suc (suc (suc (suc (suc (suc (suc (suc n))))))))) h = omega arith

digit-injective : (m n : ℕ) → m < 10 → n < 10 → digit m ≡ digit n → m ≡ n
digit-injective m n h k e = sym (value-digit m h) ∙ ap value e ∙ value-digit n k

count-digit : (n : ℕ) → count (digit n) ≡ 1
count-digit zero = refl
count-digit (suc zero) = refl
count-digit (suc (suc zero)) = refl
count-digit (suc (suc (suc zero))) = refl
count-digit (suc (suc (suc (suc zero)))) = refl
count-digit (suc (suc (suc (suc (suc zero))))) = refl
count-digit (suc (suc (suc (suc (suc (suc zero)))))) = refl
count-digit (suc (suc (suc (suc (suc (suc (suc zero))))))) = refl
count-digit (suc (suc (suc (suc (suc (suc (suc (suc zero)))))))) = refl
count-digit (suc (suc (suc (suc (suc (suc (suc (suc (suc n))))))))) = refl

emit_small : (f n : ℕ) → n < 10 → n ≤ f → emit f n ≡ digit n
unfolding emit
emit_small zero n h k = ap digit (omega arith)
emit_small (suc f) n h k = elim (Bool-cases (ltb n 10)) [
  | inl e ↦ rw e
  | inr e ↦ absurd (ground arith)
]

emit_large :
    (f n : ℕ)
    → 10 ≤ n
    → n ≤ f
    → (g : ℕ) × (n / 10 ≤ g) × (emit f n ≡ String.◌++◌ (emit g (n / 10)) (digit (n % 10)))
unfolding emit
emit_large zero n h k = absurd (omega arith)
emit_large (suc f) n h k =
    (f, omega arith, elim (Bool-cases (ltb n 10)) [ inl e ↦ absurd (ground arith) | inr e ↦ rw e ])

count-emit : (f n : ℕ) → 1 ≤ count (emit f n)
unfolding emit
count-emit zero n = rw (count-digit (n % 10)) (omega arith)
count-emit (suc f) n = elim (Bool-cases (ltb n 10)) [
  | inl e ↦ rw (e, count-digit n) (omega arith)
  | inr e ↦
      rw e (
        rw (length-append (emit f (n / 10)) (digit (n % 10)))
          (omega (arith, count-emit f (n / 10))))
]

not_one_digit : (f n c d : ℕ) → String.◌++◌ (emit f n) (digit d) ≡ digit c → ⊥
not_one_digit f n c d e = omega (
  arith,
  ap count e,
  length-append (emit f n) (digit d),
  count-emit f n,
  count-digit c,
  count-digit d,
)

split_last :
    (f g m n c d : ℕ)
    → String.◌++◌ (emit f m) (digit c) ≡ String.◌++◌ (emit g n) (digit d)
    → (emit f m ≡ emit g n) × (digit c ≡ digit d)
split_last f g m n c d e = append_inj e (
    omega (
      arith,
      ap count e,
      length-append (emit f m) (digit c),
      length-append (emit g n) (digit d),
      count-digit c,
      count-digit d,
    ))

last_digit : (m n : ℕ) → digit (m % 10) ≡ digit (n % 10) → m % 10 ≡ n % 10
last_digit m n e = digit-injective (m % 10) (n % 10) (omega arith) (omega arith) e

emit-injective_small : (f g m n : ℕ) → m < 10 → m ≤ f → n ≤ g → emit f m ≡ emit g n → m ≡ n
emit-injective_small f g m n p h h' e = elim (dec_lt n 10) [
  | yes q ↦ digit-injective m n p q (sym (emit_small f m p h) ∙ e ∙ emit_small g n q h')
  | no q ↦
      let (g', _, e') = emit_large g n (omega arith) h' in
      absurd (not_one_digit g' (n / 10) m (n % 10) (sym e' ∙ sym e ∙ emit_small f m p h))
]

emit-injective : (k f g m n : ℕ) → m ≤ k → m ≤ f → n ≤ g → emit f m ≡ emit g n → m ≡ n
emit-injective zero f g m n b h h' e = emit-injective_small f g m n (omega arith) h h' e
emit-injective (suc k) f g m n b h h' e = elim (dec_lt m 10) [
  | yes p ↦ emit-injective_small f g m n p h h' e
  | no p ↦ elim (dec_lt n 10) [
    | yes q ↦ sym (emit-injective_small g f n m q h' h (sym e))
    | no q ↦
        let (f', hf, ef) = emit_large f m (omega arith) h in
        let (g', hg, eg) = emit_large g n (omega arith) h' in
        let (front, back) =
          split_last f' g' (m / 10) (n / 10) (m % 10) (n % 10) (sym ef ∙ e ∙ eg) in
        omega (
          arith,
          last_digit m n back,
          emit-injective k f' g' (m / 10) (n / 10) (omega arith) hf hg front,
        )
  ]
]

pub show-injective : (m n : ℕ) → show m ≡ show n → m ≡ n
unfolding show
show-injective m n e = emit-injective m m n m n (omega arith) (omega arith) (omega arith) e
