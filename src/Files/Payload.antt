-- ===== src/Files/Payload.antt =====
-- The base64 text of a data URL.
use Prim.Native.Char.{code}
use Prim.Native.String
use text.Mathlib.TextLemmas.{nil-append, cons-append}
use mooring_line_management.Base.{◌≡◌, refl, ◌∙◌, String, false, none, some, ◌==◌, if_false}
use mooring_line_management.Api.Http.{resolved}
use mooring_line_management.Files.{after_comma, file_to_base64}

abbrev pub NoComma : String → Type 0
NoComma String.[] = Unit {0}
NoComma (String.◌∷◌ c s) = ((code c == b',') ≡ false) × NoComma s

after_comma-append :
    (prefix rest : String)
    → NoComma prefix
    → after_comma (String.◌++◌ prefix (String.◌++◌ "," rest)) ≡ some rest
unfolding after_comma
after_comma-append String.[] rest h = rw (nil-append, cons-append "," "" rest, nil-append) refl
after_comma-append (String.◌∷◌ c t) rest h =
    rw (cons-append c t (String.◌++◌ "," rest)) (if_false _ _ h.0 ∙ after_comma-append t rest h.1)

-- Whatever media type a data URL names, the upload's text is exactly what follows the first comma.
pub file_to_base64-append :
    (prefix rest : String)
    → NoComma prefix
    → file_to_base64 (resolved (String.◌++◌ prefix (String.◌++◌ "," rest))) ≡ resolved rest
unfolding file_to_base64
file_to_base64-append prefix rest h = rw (after_comma-append prefix rest h) refl

after_comma-none : (s : String) → NoComma s → after_comma s ≡ none
unfolding after_comma
after_comma-none String.[] h = refl
after_comma-none (String.◌∷◌ c s) h = if_false _ _ h.0 ∙ after_comma-none s h.1
