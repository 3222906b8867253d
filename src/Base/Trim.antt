-- ===== src/Base/Trim.antt =====
-- `s.trim()`, which removes the white space and line ends of ECMAScript from both ends.
use Prim.Native.Char.{Char, code}
use Prim.Native.String.{String}
use mathlib.Core.Path.{◌≡◌, refl, sym, ap, ◌∙◌}
use mathlib.Core.Logic.{inl, inr}
use mathlib.Core.Bool.{Bool, not, ◌&&◌, ◌||◌}
use mooring_line_management.Base.Tests.{leb, ◌==◌, if◌then◌else◌, if_true, if_false, Bool-cases}
use mooring_line_management.Base.Text.{truthy}

unfoldable pub is_space : Char → Bool
is_space c =
    (leb 9 (code c) && leb (code c) 13)
    || (code c == 32)
    || (code c == 160)
    || (code c == 5760)
    || (leb 8192 (code c) && leb (code c) 8202)
    || (code c == 8232)
    || (code c == 8233)
    || (code c == 8239)
    || (code c == 8287)
    || (code c == 12_288)
    || (code c == 65_279)

unfoldable pub trim_start : String → String
unfolding is_space
trim_start String.[] = String.[]
trim_start (String.◌∷◌ c s) = let rest = trim_start s in if is_space c then rest else String.◌∷◌ c s

unfoldable pub trim_end : String → String
unfolding is_space
trim_end String.[] = String.[]
trim_end (String.◌∷◌ c s) =
    let rest = trim_end s in
    if is_space c && not (truthy rest) then String.[] else String.◌∷◌ c rest

unfoldable pub trim : String → String
unfolding trim_start trim_end
trim s = trim_end (trim_start s)

trim_end_idem : (s : String) → trim_end (trim_end s) ≡ trim_end s
unfolding trim_end
trim_end_idem String.[] = refl
trim_end_idem (String.◌∷◌ c s) = elim (Bool-cases (is_space c && not (truthy (trim_end s)))) [
  | inl e ↦ ap trim_end (if_true _ _ e) ∙ sym (if_true _ _ e)
  | inr e ↦
      ap trim_end (if_false _ _ e)
      ∙ ap (λ r. if is_space c && not (truthy r) then String.[] else String.◌∷◌ c r)
          (trim_end_idem s)
]

-- What trimming the end leaves of a text trimmed at its start begins with no white space.
trim_start_of_trim_end :
    (s : String) → trim_start (trim_end (trim_start s)) ≡ trim_end (trim_start s)
unfolding trim_start trim_end
trim_start_of_trim_end String.[] = refl
trim_start_of_trim_end (String.◌∷◌ c s) = elim (Bool-cases (is_space c)) [
  | inl e ↦
      ap (λ t. trim_start (trim_end t)) (if_true _ _ e)
      ∙ trim_start_of_trim_end s
      ∙ sym (ap trim_end (if_true _ _ e))
  | inr e ↦
      let whole : trim_start (String.◌∷◌ c s) ≡ String.◌∷◌ c s = if_false _ _ e in
      let kept : trim_end (String.◌∷◌ c s) ≡ String.◌∷◌ c (trim_end s) =
        ap (λ b. if b && not (truthy (trim_end s)) then String.[] else String.◌∷◌ c (trim_end s))
          e in
      ap (λ t. trim_start (trim_end t)) whole
      ∙ ap trim_start kept
      ∙ if_false _ _ e
      ∙ sym kept
      ∙ sym (ap trim_end whole)
]

pub trim_idem : (s : String) → trim (trim s) ≡ trim s
unfolding trim
trim_idem s = ap trim_end (trim_start_of_trim_end s) ∙ trim_end_idem (trim_start s)
