-- ===== src/Auth/Context.antt =====
-- web/src/app/auth/authContext.ts: the session's types, its defaults and the hooks that read it.
use mooring_line_management.Base.{String, Bool, false, Option, none, some, List}
use mooring_line_management.Api.Http.{Outcome, resolved, rejected, plain, ◌>>=◌}

pub data AuthStatus : Type 0 where
  loading authenticated unauthenticated : AuthStatus

pub record AuthUser : Type 0 where
  pub id : String
  pub email : String
  pub name : String
  pub sub : String
  pub position_id : String
  pub position_name : String

pub data AccessLevel : Type 0 where
  denied view edit : AccessLevel

pub record AuthPermissions : Type 0 where
  pub admin : Bool
  pub level : AccessLevel
  pub can_read : Bool
  pub can_write : Bool

pub record SessionResponse : Type 0 where
  pub authenticated : Bool
  pub user : Option AuthUser
  pub groups : Option (List String)
  pub permissions : Option AuthPermissions

-- The values of `AuthState`; its three functions are `login`, `logout` and a refetch.
pub record AuthState : Type 0 where
  pub status : AuthStatus
  pub user : Option AuthUser
  pub groups : List String
  pub permissions : AuthPermissions

abbrev pub default_permissions : AuthPermissions
default_permissions = record { admin = false; level = denied; can_read = false; can_write = false }

-- `useAuth` throws outside of the provider, where the context is `null`.
unfoldable pub use_auth : Option AuthState → Outcome AuthState
use_auth none = rejected (plain "useAuth must be used within <AuthProvider>")
use_auth (some s) = resolved s

unfoldable pub use_can_write : Option AuthState → Outcome Bool
unfolding use_auth
use_can_write ctx = do s ← use_auth ctx; resolved s.permissions.can_write

unfoldable pub use_is_admin : Option AuthState → Outcome Bool
unfolding use_auth
use_is_admin ctx = do s ← use_auth ctx; resolved s.permissions.admin
