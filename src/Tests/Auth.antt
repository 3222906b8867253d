-- ===== src/Tests/Auth.antt =====
-- The sign-in on concrete visits and sessions.
use mooring_line_management.Base.{
  ◌≡◌, ◌≤◌, refl, true, false, none, some, List, [], ◌∷◌, arith, ◌↔◌,
}
use text.Mathlib.TextBridge.{IsPrefix}
use mooring_line_management.Auth.Context.{unauthenticated, authenticated, view, SessionResponse}
use mooring_line_management.Auth.Provider.{auth_state, login_target}
use mooring_line_management.Auth.Provider.Target.{login_target-ne-IsPrefix}
use mooring_line_management.Auth.Guard.{absent, attempts, screen, app, effect, mount}
use mooring_line_management.Auth.Guard.Redirects.{
  Visit, visit, redirects, redirects-le, visit-redirected, visit-cleared,
}
use mooring_line_management.Auth.Guard.Screens.{Admits, screen-app_iff}

login_target-ne-IsPrefix_example :
    (¬ IsPrefix "/auth/" (login_target "/auth/callback?code=1"))
    × (¬ IsPrefix "/api/auth/" (login_target "/auth/callback?code=1"))
login_target-ne-IsPrefix_example = login_target-ne-IsPrefix "/auth/callback?code=1"

abbrev first : Visit
first = record { status = unauthenticated; reason = none; now = 100_000 }

abbrev burst : List Visit
burst =
    first
    ∷ record first { now = 101_000 }
    ∷ record first { now = 102_000 }
    ∷ record first { now = 103_000 }
    ∷ []

redirects-burst : redirects burst absent ≡ 2
unfolding redirects visit effect mount
redirects-burst = refl

redirects-le_example : redirects burst absent ≤ 2
redirects-le_example = redirects-le 100_000 burst absent (
  ((λ e. cc), omega arith, omega arith),
  (
    ((λ e. cc), omega arith, omega arith),
    (((λ e. cc), omega arith, omega arith), (((λ e. cc), omega arith, omega arith), tt)),
  ),
)

visit-redirected_example :
    ((visit first (attempts (60_000 ∷ []))).redirected ≡ true)
    × ((visit first (attempts (60_000 ∷ []))).stored ≡ attempts (100_000 ∷ []))
visit-redirected_example =
    visit-redirected first (attempts (60_000 ∷ [])) refl refl (omega arith, tt)

abbrev signed_in : Visit
signed_in = record first { status = authenticated }

visit-cleared_example :
    ((visit signed_in (attempts (60_000 ∷ []))).stored ≡ absent)
    × ((visit signed_in (attempts (60_000 ∷ []))).redirected ≡ false)
visit-cleared_example = visit-cleared signed_in (attempts (60_000 ∷ [])) refl

abbrev sailor : SessionResponse
sailor = record {
  authenticated = true;
  user = some (record {
    id = "1";
    email = "a@b";
    name = "A";
    sub = "s";
    position_id = "2";
    position_name = "Bosun";
  });
  groups = none;
  permissions = some (record { admin = false; level = view; can_read = true; can_write = false });
}

screen-app_iff_example :
    let s = auth_state false (some sailor) in
    (screen s.status false none s.permissions ≡ app)
    ↔ ((false ≡ false) × ((r : SessionResponse) × (some sailor ≡ some r) × Admits r))
screen-app_iff_example = screen-app_iff false false none (some sailor)

abbrev signed_out : SessionResponse
signed_out = record { authenticated = false; user = none; groups = none; permissions = none }
