-- ===== src/Shell.antt =====
-- web/src/config.ts and web/src/app: the scope of a deployment, the navigation, the current vessel, and
-- the frame around the pages.
pub mod Vessels
use mooring_line_management.Base.{
  ◌≡◌, ◌↔◌, refl, arith, Memᴰ, mem-filter_iff, String, Bool, true, false, not, ◌&&◌, ◌||◌, Option,
  none, some, List, [], ◌∷◌, filter, map, str_eq, concat, truthy, or_else, or_undefined,
  if◌then◌else◌,
}
use mooring_line_management.Schema.{Vessel}
use mooring_line_management.Auth.Context.{AuthUser, AuthPermissions}
use mooring_line_management.Api.Http.{or_text}

pub data Scope : Type 0 where
  onboard shore : Scope

-- The environment's `VITE_SCOPE`.
unfoldable pub scope_of : Option String → Scope
scope_of none = shore
scope_of (some s) = if str_eq s "onboard" then onboard else shore

-- `VITE_VESSEL_ID || undefined`
unfoldable pub onboard_vessel_id : Option String → Option String
onboard_vessel_id none = none
onboard_vessel_id (some s) = or_undefined s

abbrev pub is_onboard : Scope → Bool
is_onboard onboard = true
is_onboard shore = false

abbrev pub is_shore : Scope → Bool
is_shore s = not (is_onboard s)

pub record NavItem : Type 0 where
  pub to : String
  pub label : String
  pub shore_only : Bool
  pub admin_only : Bool

abbrev item : String → String → NavItem
item to label = record { to = to; label = label; shore_only = false; admin_only = false }

-- `NAV`, without the icons.
abbrev pub nav : List NavItem
nav =
    item "/" "Dashboard"
    ∷ item "/deck" "Deck map"
    ∷ item "/register" "Rope register"
    ∷ item "/inspections" "Inspections"
    ∷ item "/logbook" "Log book"
    ∷ item "/files" "Files & certs"
    ∷ item "/catalogue" "Catalogue"
    ∷ record { to = "/permissions"; label = "Permissions"; shore_only = false; admin_only = true }
    ∷ []

unfoldable pub visible_nav : Scope → List NavItem
visible_nav s = filter (λ n. not n.shore_only || is_shore s) nav

-- The navigation that `AppShell` renders.
unfoldable pub nav_items : Scope → (is_admin : Bool) → List NavItem
unfolding visible_nav
nav_items s is_admin = filter (λ n. not n.admin_only || is_admin) (visible_nav s)

-- `UserMenu`
pub record Menu : Type 0 where
  pub read_only : Bool
  pub shown : String
  pub hint : String
  pub position : Option String

unfoldable pub user_menu : Option AuthUser → AuthPermissions → Option Menu
user_menu none p = none
user_menu (some u) p = some (record {
  read_only = not p.can_write;
  shown = or_text (some u.email) u.name;
  hint = or_text (some u.name) u.email;
  position =
      if truthy u.position_name || truthy u.position_id
      then some (or_text (some u.position_name) u.position_id)
      else none;
})

-- `ConnBadge`: the health answer's `db`, if there is one.
unfoldable pub is_online : (is_error : Bool) → Option String → Bool
is_online is_error none = false
is_online is_error (some db) = not is_error && str_eq db "ok"

-- The address of the search form; `encode` is `encodeURIComponent`.
unfoldable pub search_address : (encode : String → String) → String → String
search_address encode q = concat ("/register?q=" ∷ encode q ∷ [])

-- A control inside `WriteGuard`.
pub record Control : Type 0 where
  pub disabled : Bool
  pub title : Option String

unfoldable pub write_guard : (can_write : Bool) → Control → Control
write_guard true c = c
write_guard false c = record { disabled = true; title = some "Read-only access" }

-- Someone who is not an administrator is offered exactly the pages that are for all, and an
-- administrator all of them, in either scope as far as a page is not for the shore only.
pub nav_items_iff :
    (s : Scope) (is_admin : Bool) (n : NavItem)
    → Memᴰ n (nav_items s is_admin) ↔ (
        Memᴰ n nav
        × ((n.shore_only && is_onboard s) ≡ false)
        × ((n.admin_only && not is_admin) ≡ false))
unfolding nav_items visible_nav
nav_items_iff s is_admin n =
    let for_scope = λ (i : NavItem). not i.shore_only || is_shore s in
    let for_user = λ (i : NavItem). not i.admin_only || is_admin in
    (
      λ m.
          let (k, a) = (mem-filter_iff for_user n (filter for_scope nav)).0 m in
          let (j, b) = (mem-filter_iff for_scope n nav).0 k in
          (j, ground (arith, b), ground (arith, a)),
      λ h.
          (mem-filter_iff for_user n (filter for_scope nav)).1
            ((mem-filter_iff for_scope n nav).1 (h.0, ground (arith, h.1)), ground (arith, h.2)),
    )
