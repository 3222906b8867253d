-- ===== src/Offline.antt =====
-- web/vite.config.ts: which requests the service worker answers from its cache, which pages it answers
-- with the client itself, and the path that the development server's proxy asks the API for. Workbox
-- and Vite are not modelled: a rule of Workbox is for the method GET unless it names another.
pub mod Caching
use Prim.Native.Char.{code}
use Prim.Native.String
use text.Mathlib.Text.{starts_with}
use text.Mathlib.TextLemmas.{nil-append, cons-append}
use mooring_line_management.Base.{
  ◌≡◌, refl, sym, ap, ◌∙◌, if_true, concat, map, ◌++◌, [], ◌∷◌, List, arith, ℕ, String, Bool, true,
  false, not, ◌&&◌, ◌||◌, Option, none, some, ◌==◌, if◌then◌else◌,
}
use mooring_line_management.Contract.Shape.{Method, get}
use mooring_line_management.Contract.Conforms.{Fields}
use mooring_line_management.Contract.Templates.{filled, value, pieces, query_texts}
use mooring_line_management.Contract.HttpCalls.{api_base}

abbrev pub is_get : Method → Bool
is_get get = true
is_get _ = false

-- The one rule of `runtimeCaching`.
unfoldable pub is_cached : Method → (pathname : String) → Bool
is_cached m pathname =
    is_get m
    && (starts_with pathname "/api/"
        && (not (starts_with pathname "/api/auth/") && not (starts_with pathname "/api/access/")))

-- `navigateFallbackDenylist`
unfoldable pub is_shell : (pathname : String) → Bool
is_shell pathname = not (starts_with pathname "/api/")

-- What follows `t`, if the text begins with it.
strip : String → String → Option String
strip String.[] s = some s
strip (String.◌∷◌ d t) String.[] = none
strip (String.◌∷◌ d t) (String.◌∷◌ c s) =
    let rest = strip t s in if code d == code c then rest else none

-- `p.replace(/^\/api/, "")`
unfoldable pub rewrite : String → String
unfolding strip
rewrite p = elim (strip "/api" p) [ none ↦ p | some rest ↦ rest ]

nat_eq_refl : (n : ℕ) → (n == n) ≡ true
nat_eq_refl n = ground arith

strip-append : (t u : String) → strip t (String.◌++◌ t u) ≡ some u
unfolding strip
strip-append String.[] u = rw (nil-append u) refl
strip-append (String.◌∷◌ c t) u =
    rw (cons-append c t u) (if_true _ _ (nat_eq_refl (code c)) ∙ strip-append t u)

-- Behind the development server's proxy the API is asked for the path that a template stands for: the
-- proxy takes off exactly the base that the client puts before it.
rewrite-filled :
    {N : Type 0} (template : String) (path : List (String × String)) (query : Fields N)
    → rewrite (filled api_base template path query) ≡ filled "" template path query
unfolding rewrite filled
rewrite-filled template path query =
    let rest = concat (map (value path) (pieces template) ++ query_texts "?" query) in
    ap (λ o. elim o [ none ↦ String.◌++◌ "/api" rest | some r ↦ r ]) (strip-append "/api" rest)
    ∙ sym (nil-append rest)
