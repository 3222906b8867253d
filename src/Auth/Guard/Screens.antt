-- ===== src/Auth/Guard/Screens.antt =====
-- What a visitor of the guarded part of the client gets to see.
use mooring_line_management.Base.{
  ◌≡◌, refl, sym, ◌∙◌, subst, if_false, List, or_else, not, ◌&&◌, if◌then◌else◌, ◌↔◌, String, Bool,
  true, false, Option, none, some, ◌⊎◌, inl, inr, ◌≢◌,
}
use mooring_line_management.Api.Http.{resolved, rejected, read_json, Response, is_ok}
use mooring_line_management.Auth.Context.{
  authenticated, unauthenticated, AccessLevel, denied, view, edit, AuthPermissions, SessionResponse,
  AuthUser, default_permissions,
}
use mooring_line_management.Auth.Provider.{fetch_session, is_authenticated, auth_state}
use mooring_line_management.Auth.Guard.{app, no_access, loading_screen, is_denied, screen}

-- The screen of an authenticated session is decided by its permissions.
not_denied_iff :
    (admin : Bool) (level : AccessLevel)
    → ((if not admin && is_denied level then no_access else app) ≡ app)
      ↔ ((admin ≡ true) ⊎ (level ≢ denied))
not_denied_iff true level = (λ h. inl refl, λ h. refl)
not_denied_iff false denied = (λ h. cc, λ h. elim h [ inl e ↦ cc | inr n ↦ absurd (n refl) ])
not_denied_iff false view = (λ h. inr (λ e. cc), λ h. refl)
not_denied_iff false edit = (λ h. inr (λ e. cc), λ h. refl)

false-ne-true : false ≢ true
false-ne-true h = cc

none-ne-some : {A : Type 0} {a : A} → none ≢ some a
none-ne-some h = cc

some_injective : {A : Type 0} {a b : A} → some a ≡ some b → a ≡ b
some_injective h = cc

screen_authenticated :
    (blocked : Bool) (reason : Option String) (u : AuthUser) (p : AuthPermissions)
    → (screen authenticated blocked reason p ≡ app) ↔ ((p.admin ≡ true) ⊎ (p.level ≢ denied))
unfolding screen
screen_authenticated blocked reason u p = not_denied_iff p.admin p.level

screen_unauthenticated :
    (blocked : Bool) (reason : Option String) (p : AuthPermissions)
    → screen unauthenticated blocked reason p ≢ app
unfolding screen
screen_unauthenticated true reason p h = cc
screen_unauthenticated false reason p h = cc

-- A session that opens the client: signed in, with a user, and with the permissions of an administrator
-- or of a level that is not "denied".
abbrev pub Admits : SessionResponse → Type 0
Admits r =
    (r.authenticated ≡ true)
    × ((u : AuthUser) × (r.user ≡ some u))
    × ((p : AuthPermissions) × (r.permissions ≡ some p) × ((p.admin ≡ true) ⊎ (p.level ≢ denied)))

screen_loaded :
    (blocked : Bool) (reason : Option String) (signed_in : Bool) (user : Option AuthUser)
    (groups : Option (List String)) (permissions : Option AuthPermissions)
    → let r : SessionResponse = record {
      authenticated = signed_in;
      user = user;
      groups = groups;
      permissions = permissions;
    } in
      let s = auth_state false (some r) in
      (screen s.status blocked reason s.permissions ≡ app) ↔ Admits r
unfolding auth_state is_authenticated
screen_loaded blocked reason false user groups permissions = (
  λ h. absurd (screen_unauthenticated blocked reason (or_else permissions default_permissions) h),
  λ h. absurd (false-ne-true h.0),
)
screen_loaded blocked reason true none groups permissions = (
  λ h. absurd (screen_unauthenticated blocked reason (or_else permissions default_permissions) h),
  λ h. absurd (none-ne-some h.1.1),
)
screen_loaded blocked reason true (some u) groups none = (
  λ h. elim ((screen_authenticated blocked reason u default_permissions).0 h) [
    | inl e ↦ absurd (false-ne-true e)
    | inr n ↦ absurd (n refl)
  ],
  λ h. absurd (none-ne-some h.2.1),
)
screen_loaded blocked reason true (some u) groups (some p) = (
  λ h. (refl, (u, refl), (p, refl, (screen_authenticated blocked reason u p).0 h)),
  λ h.
      let (q, e, k) = h.2 in
      (screen_authenticated blocked reason u p).1
        (subst (λ v. (v.admin ≡ true) ⊎ (v.level ≢ denied)) (sym (some_injective e)) k),
)

loading-ne-app : loading_screen ≢ app
loading-ne-app h = cc

-- The client's pages are rendered exactly if the session query has an answer and is not loading, and the
-- answer says that the visitor is authenticated, has a user, and has permissions, which are an
-- administrator's or of a level other than denied.
pub screen-app_iff :
    (is_loading blocked : Bool) (reason : Option String) (session : Option SessionResponse)
    → let s = auth_state is_loading session in
      (screen s.status blocked reason s.permissions ≡ app)
      ↔ ((is_loading ≡ false) × ((r : SessionResponse) × (session ≡ some r) × Admits r))
unfolding auth_state is_authenticated screen
screen-app_iff true blocked reason session =
    (λ h. absurd (loading-ne-app h), λ h. absurd (false-ne-true (sym h.0)))
screen-app_iff false blocked reason none = (
  λ h. absurd (screen_unauthenticated blocked reason default_permissions h),
  λ h. absurd (none-ne-some h.1.1),
)
screen-app_iff false blocked reason (some r) =
    let (f, g) = screen_loaded blocked reason r.authenticated r.user r.groups r.permissions in
    (
      λ h. (refl, (r, refl, f h)),
      λ h. let (q, e, k) = h.1 in g (subst Admits (sym (some_injective e)) k),
    )

-- Any answer but a 2xx counts as signed out: the guard's user is `null`, and nothing may be written.
pub fetch_session_refused :
    (res : Response SessionResponse) (s : SessionResponse)
    → is_ok res.status ≡ false
    → fetch_session (resolved res) ≡ resolved s
    → let state = auth_state false (some s) in
      (state.status ≡ unauthenticated)
      × (state.user ≡ none)
      × (state.permissions ≡ default_permissions)
unfolding fetch_session auth_state is_authenticated
fetch_session_refused res s h e =
    subst
      (λ o. elim o [
        | resolved t ↦
            let state = auth_state false (some t) in
            (state.status ≡ unauthenticated)
            × (state.user ≡ none)
            × (state.permissions ≡ default_permissions)
        | rejected _ ↦ Unit {0}
      ])
      (sym (if_false (read_json res) _ h) ∙ e) (refl, refl, refl)
