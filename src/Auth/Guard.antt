-- ===== src/Auth/Guard.antt =====
-- web/src/app/auth/RequireAuth.tsx: the route guard and its loop-breaker. The attempts are kept in the
-- session storage of the tab, which outlives the page loads of the sign-in. One reading of the clock
-- stands for those of one run of the effect; times are milliseconds.
pub mod Redirects
pub mod Screens
use mooring_line_management.Base.{
  ℕ, ◌-◌, ◌+◌, String, Bool, true, false, not, ◌&&◌, ◌||◌, Option, none, some, List, [], ◌∷◌, ◌++◌,
  ltb, leb, filter, length, truthy, if◌then◌else◌,
}
use mooring_line_management.Auth.Context.{
  AuthStatus, loading, authenticated, unauthenticated, AccessLevel, denied, view, edit,
  AuthPermissions,
}

abbrev pub max_attempts : ℕ
max_attempts = 3

abbrev pub window_ms : ℕ
window_ms = 30_000

-- What the storage has under `mlm_login_attempts`: nothing, a text that is no JSON, or the times. What
-- `setItem` writes is a list of times: JSON of another form, at which `filter` throws, is left out.
pub data Stored : Type 0 where
  absent unreadable : Stored
  attempts : List ℕ → Stored

abbrev pub times : Stored → List ℕ
times absent = []
times unreadable = []
times (attempts ts) = ts

unfoldable pub recent_attempts : Stored → ℕ → List ℕ
recent_attempts s now = filter (λ t. ltb (now - t) window_ms) (times s)

-- The new content of the storage, and the number of attempts with this one.
unfoldable pub record_attempt : Stored → ℕ → Stored × ℕ
unfolding recent_attempts
record_attempt s now = let ts = recent_attempts s now ++ now ∷ [] in (attempts ts, length ts)

-- `!!reason`, for the `auth_error` of the address.
abbrev pub has_reason : Option String → Bool
has_reason none = false
has_reason (some r) = truthy r

-- The state of the guard: the storage, the hook `blocked`, and whether the effect called `login`.
pub record Guard : Type 0 where
  pub stored : Stored
  pub blocked : Bool
  pub redirected : Bool

-- The first render of a page load.
unfoldable pub mount : Option String → ℕ → Stored → Guard
unfolding recent_attempts
mount reason now s = record {
  stored = s;
  blocked = has_reason reason || leb max_attempts (length (recent_attempts s now));
  redirected = false;
}

-- An unauthenticated run that may still redirect.
attempt : ℕ → Guard → Guard
unfolding record_attempt
attempt now g =
    let r = record_attempt g.stored now in
    if leb max_attempts r.1
    then record g { stored = r.0; blocked = true; redirected = false }
    else record g { stored = r.0; redirected = true }

-- One run of the effect.
unfoldable pub effect : AuthStatus → Option String → ℕ → Guard → Guard
unfolding attempt
effect authenticated reason now g = record g { stored = absent; redirected = false }
effect loading reason now g = record g { redirected = false }
effect unauthenticated reason now g =
    if has_reason reason || leb max_attempts (length (recent_attempts g.stored now))
    then record g { blocked = true; redirected = false }
    else attempt now g

-- The button "Try signing in again": the attempts are forgotten, and `login("/")` is called.
unfoldable pub try_again : Guard → Guard
try_again g = record g { stored = absent; redirected = true }

pub data Screen : Type 0 where
  app no_access : Screen
  sign_in_failed : (reason : Option String) → Screen
  redirecting loading_screen : Screen

abbrev pub is_denied : AccessLevel → Bool
is_denied denied = true
is_denied _ = false

-- What is rendered.
unfoldable pub screen :
    AuthStatus → (blocked : Bool) → (reason : Option String) → AuthPermissions → Screen
screen authenticated blocked reason p = if not p.admin && is_denied p.level then no_access else app
screen unauthenticated blocked reason p = if blocked then sign_in_failed reason else redirecting
screen loading blocked reason p = loading_screen
