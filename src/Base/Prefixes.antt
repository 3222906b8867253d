-- ===== src/Base/Prefixes.antt =====
-- Texts that begin with another, and texts that cannot.
use Prim.Native.Char.{Char, code}
use Prim.Native.String
use Prim.Native.String.{String}
use Prim.Native.Nat.{ℕ}
use mathlib.Core.Path.{◌≡◌, sym, ap, ◌∙◌}
use mathlib.Core.Logic.{◌≢◌, inl, inr}
use mathlib.Core.Bool.{Bool, true, false, not, ◌||◌, ◌&&◌}
use mathlib.Core.Option.{Option, none, some}
use native.Mathlib.Omega.{arith}
use text.Mathlib.Text.{starts_with}
use text.Mathlib.TextBridge.{IsPrefix}
use text.Mathlib.TextEquality.{starts_with_iff}
use text.Mathlib.TextLemmas.{cons-append, append_assoc}
use mooring_line_management.Base.Tests.{◌==◌, Bool-cases}

-- At some place both texts have a character, and not the same.
abbrev pub differ : String → String → Bool
differ (String.◌∷◌ c s) (String.◌∷◌ d t) = not (code c == code d) || differ s t
differ _ _ = false

head : String → Option Char
head String.[] = none
head (String.◌∷◌ c s) = some c

tail : String → String
tail String.[] = String.[]
tail (String.◌∷◌ c s) = s

cons_injective :
    (c d : Char) (s t : String) → String.◌∷◌ c s ≡ String.◌∷◌ d t → (code c ≡ code d) × (s ≡ t)
unfolding head tail
cons_injective c d s t e = (ap (code_or 0) (ap head e), ap tail e)
  where
    code_or : ℕ → Option Char → ℕ
    code_or n none = n
    code_or n (some c) = code c

false-ne-true : false ≢ true
false-ne-true q = cc

-- A text that begins with `a` does not begin with a text that differs from `a`.
not_prefix_of_differ :
    (a t u v : String) → differ a t ≡ true → ¬ (String.◌++◌ t v ≡ String.◌++◌ a u)
not_prefix_of_differ String.[] t u v h e = absurd (false-ne-true h)
not_prefix_of_differ (String.◌∷◌ c s) String.[] u v h e = absurd (false-ne-true h)
not_prefix_of_differ (String.◌∷◌ c s) (String.◌∷◌ d t) u v h e =
    let (p, q) = cons_injective d c _ _ (sym (cons-append d t v) ∙ e ∙ cons-append c s u) in
    not_prefix_of_differ s t u v (ground (arith, h, p)) q

pub starts_with_of_differ :
    (a t s : String) → IsPrefix a s → differ a t ≡ true → starts_with s t ≡ false
starts_with_of_differ a t s (u, e) h = elim (Bool-cases (starts_with s t)) [
  | inl y ↦
      let (v, k) = (starts_with_iff s t).0 y in absurd (not_prefix_of_differ a t u v h (k ∙ sym e))
  | inr n ↦ n
]

pub prefix_trans : (a b s : String) → IsPrefix a b → IsPrefix b s → IsPrefix a s
prefix_trans a b s (u, e) (v, k) =
    (String.◌++◌ u v, sym (append_assoc a u v) ∙ ap (λ x. String.◌++◌ x v) e ∙ k)

-- The text has no character of this code.
abbrev pub lacks : ℕ → String → Bool
lacks k String.[] = true
lacks k (String.◌∷◌ c s) = not (code c == k) && lacks k s

-- A literal that is several pieces of the other side.
pub append_three :
    (a b c rest : String)
    → String.◌++◌ (String.◌++◌ (String.◌++◌ a b) c) rest
      ≡ String.◌++◌ a (String.◌++◌ b (String.◌++◌ c rest))
append_three a b c rest = append_assoc (String.◌++◌ a b) c rest ∙ append_assoc a b _

pub append_four :
    (a b c d rest : String)
    → String.◌++◌ (String.◌++◌ (String.◌++◌ (String.◌++◌ a b) c) d) rest
      ≡ String.◌++◌ a (String.◌++◌ b (String.◌++◌ c (String.◌++◌ d rest)))
append_four a b c d rest = append_three (String.◌++◌ a b) c d rest ∙ append_assoc a b _
