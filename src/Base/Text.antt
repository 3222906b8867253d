-- ===== src/Base/Text.antt =====
-- Texts: truthiness, joining, and upper case of ASCII.
use Prim.Native.Char.{Char, code}
use Prim.Native.String
use Prim.Native.String.compare
use Prim.Native.String.{String}
use mathlib.Core.Path.{◌≡◌, refl}
use mathlib.Core.Bool.{Bool, true, not}
use mathlib.Core.Option.{Option, none, some}
use mathlib.Core.List.{List, [], ◌∷◌}
use text.Mathlib.Text.{◌==◌}
use text.Mathlib.TextLemmas.{cons-append}
use mooring_line_management.Base.Tests.{◌==◌ as nat_eq, if◌then◌else◌}

-- A template literal, part by part.
abbrev pub concat : List String → String
concat [] = ""
concat (s ∷ ss) = String.◌++◌ s (concat ss)

-- `!!s`
abbrev pub truthy : String → Bool
truthy s = not (s == "")

-- A text that begins with one that is not empty is not empty.
pub truthy-append : (t u : String) → truthy t ≡ true → truthy (String.◌++◌ t u) ≡ true
truthy-append String.[] u h = cc
truthy-append (String.◌∷◌ c t) u h =
    rw (cons-append c t u, compare.cons-nil c (String.◌++◌ t u)) refl

-- `s || undefined`
abbrev pub or_undefined : String → Option String
or_undefined s = if truthy s then some s else none

-- The letter of `upper` at the place where `c` stands in `lower`.
upper_in : String → String → Char → Char
upper_in (String.◌∷◌ l lower) (String.◌∷◌ u upper) c =
    if nat_eq (code l) (code c) then u else upper_in lower upper c
upper_in _ _ c = c

-- `s.toUpperCase()` on the ASCII letters; other characters are left alone.
unfoldable pub to_upper_case : String → String
unfolding upper_in
to_upper_case String.[] = String.[]
to_upper_case (String.◌∷◌ c s) =
    String.◌∷◌ (upper_in "abcdefghijklmnopqrstuvwxyz" "ABCDEFGHIJKLMNOPQRSTUVWXYZ" c)
      (to_upper_case s)

upper_fwd : to_upper_case "fwd" ≡ "FWD"
unfolding to_upper_case
upper_fwd = refl
