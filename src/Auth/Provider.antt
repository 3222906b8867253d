-- ===== src/Auth/Provider.antt =====
-- web/src/app/auth/AuthProvider.tsx: the session query, the state derived from it, and the way to the
-- login page. Navigation is the returned address.
pub mod Target
use Prim.Native.Char.{Char, code}
use Prim.Native.String
use text.Mathlib.Text.{starts_with}
use mooring_line_management.Base.{
  ℕ, String, Bool, true, false, ◌&&◌, ◌||◌, not, Option, none, some, List, [], ◌∷◌, ◌==◌, is_some,
  or_else, concat, if◌then◌else◌,
}
use mooring_line_management.Api.Http.{
  Outcome, resolved, rejected, ◌>>=◌, Response, Fetched, is_ok, read_json,
}
use mooring_line_management.Auth.Context.{
  AuthStatus, loading, authenticated, unauthenticated, AuthUser, SessionResponse, AuthState,
  default_permissions,
}

abbrev no_session : SessionResponse
no_session = record { authenticated = false; user = none; groups = none; permissions = none }

unfoldable pub fetch_session : Fetched SessionResponse → Outcome SessionResponse
fetch_session fetched = do
  res ← fetched
  if is_ok res.status then read_json res else resolved no_session

-- `!!data?.authenticated && !!data.user`
unfoldable pub is_authenticated : Option SessionResponse → Bool
is_authenticated none = false
is_authenticated (some s) = s.authenticated && is_some s.user

unfoldable pub auth_state : (is_loading : Bool) → Option SessionResponse → AuthState
unfolding is_authenticated
auth_state is_loading session = record {
  status =
      if is_loading
      then loading
      else if is_authenticated session
      then authenticated
      else unauthenticated;
  user = if is_authenticated session then elim session [ none ↦ none | some s ↦ s.user ] else none;
  groups = elim session [ none ↦ [] | some s ↦ or_else s.groups [] ];
  permissions = elim session [
    | none ↦ default_permissions
    | some s ↦ or_else s.permissions default_permissions
  ];
}

-- `raw.split("?")[0]`
unfoldable pub before_query : String → String
before_query String.[] = String.[]
before_query (String.◌∷◌ c s) =
    let rest = String.◌∷◌ c (before_query s) in if code c == b'?' then String.[] else rest

-- The page to come back to: never one of the sign-in's own.
unfoldable pub login_target : String → String
unfolding before_query
login_target raw =
    if starts_with (before_query raw) "/auth/" || starts_with (before_query raw) "/api/auth/"
    then "/"
    else raw

-- The address that `login` navigates to; `here` is the current path and query, and `encode` is
-- `encodeURIComponent`.
unfoldable pub login : (encode : String → String) → (here : String) → Option String → String
unfolding login_target
login encode here return_to =
    concat ("/api/auth/login?return_to=" ∷ encode (login_target (or_else return_to here)) ∷ [])

-- `logout` goes to the root page whether or not the request succeeds; a failed request also rejects.
unfoldable pub logout : Outcome (Unit {0}) → String × Outcome (Unit {0})
logout posted = ("/", posted)
