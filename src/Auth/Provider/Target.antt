-- ===== src/Auth/Provider/Target.antt =====
-- A login never returns to the sign-in's own pages.
use Prim.Native.Char.{code}
use Prim.Native.String
use text.Mathlib.Text.{starts_with}
use text.Mathlib.TextBridge.{IsPrefix}
use text.Mathlib.TextEquality.{starts_with_iff}
use text.Mathlib.TextPositions.{starts_with-append}
use text.Mathlib.TextLemmas.{nil-append, cons-append}
use mooring_line_management.Base.{
  ◌≡◌, refl, sym, ap, ◌∙◌, String, Bool, true, false, ◌==◌, lacks, arith, if_false, Bool-cases, inl,
  inr, ◌⊎◌,
}
use mooring_line_management.Auth.Provider.{before_query, login_target}

abbrev NoQuery : String → Type 0
NoQuery t = lacks b'?' t ≡ true

pub before_query-append :
    (t u : String) → NoQuery t → before_query (String.◌++◌ t u) ≡ String.◌++◌ t (before_query u)
unfolding before_query
before_query-append String.[] u h = rw (nil-append, nil-append)
before_query-append (String.◌∷◌ c t) u h =
    rw (cons-append c t u, cons-append c t (before_query u))
      (if_false {b = code c == b'?'} _ _ (ground (arith, h))
        ∙ ap (String.◌∷◌ c) (before_query-append t u (ground (arith, h))))

-- A text that begins with `t` still does so without its query, where `t` has no question mark.
before_query-IsPrefix :
    (t s : String) → NoQuery t → IsPrefix t s → starts_with (before_query s) t ≡ true
before_query-IsPrefix t s h (u, e) =
    rw (← e, before_query-append t u h) (starts_with-append t (before_query u))

abbrev at_auth : String → Bool
at_auth raw = starts_with (before_query raw) "/auth/"

abbrev at_api_auth : String → Bool
at_api_auth raw = starts_with (before_query raw) "/api/auth/"

login_target_cases :
    (raw : String)
    → (login_target raw ≡ "/")
      ⊎ ((login_target raw ≡ raw) × (at_auth raw ≡ false) × (at_api_auth raw ≡ false))
unfolding login_target
login_target_cases raw = elim (Bool-cases (at_auth raw)) [
  | inl a ↦ inl (rw a)
  | inr a ↦ elim (Bool-cases (at_api_auth raw)) [
    | inl b ↦ inl (rw (a, b))
    | inr b ↦ inr (rw (a, b), a, b)
  ]
]

not_at : (raw t : String) → NoQuery t → starts_with (before_query raw) t ≡ false → ¬ IsPrefix t raw
not_at raw t h e p = absurd_bool (sym (before_query-IsPrefix t raw h p) ∙ e)
  where
    absurd_bool : true ≡ false → ⊥
    absurd_bool q = cc

not_at_root : (t : String) → starts_with "/" t ≡ false → ¬ IsPrefix t "/"
not_at_root t e p = absurd_bool (sym ((starts_with_iff "/" t).1 p) ∙ e)
  where
    absurd_bool : true ≡ false → ⊥
    absurd_bool q = cc

-- Whatever page asks for the login, the address to return to does not begin with one of the two paths
-- of the sign-in, so a failed login cannot wrap its own address into the next one.
pub login_target-ne-IsPrefix :
    (raw : String)
    → (¬ IsPrefix "/auth/" (login_target raw)) × (¬ IsPrefix "/api/auth/" (login_target raw))
unfolding login_target
login_target-ne-IsPrefix raw = elim (login_target_cases raw) [
  | inl e ↦ rw e (not_at_root "/auth/" refl, not_at_root "/api/auth/" refl)
  | inr (e, a, b) ↦ rw e (not_at raw "/auth/" refl a, not_at raw "/api/auth/" refl b)
]
