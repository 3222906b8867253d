-- ===== src/Permissions/Views.antt =====
-- The answers of the server, as the page shows them.
use mooring_line_management.Base.{
  ℕ, suc, length, ◌++◌, ap, sym, ◌∙◌, truthy-append, ◌≡◌, ◌≢◌, ◌↔◌, refl, String, Bool, true, false,
  Option, none, some, List, [], ◌∷◌, ◌==◌, ◌&&◌, truthy, concat, show, or_else, if◌then◌else◌,
  arith, Bool-cases, inl, inr,
}
use mooring_line_management.Api.Http.{
  Error, plain, forbidden, move_failed, refused, Outcome, resolved, rejected, ◌>>=◌, Response,
  Fetched, is_ok,
}
use mooring_line_management.Api.Query.{QueryState}
use mooring_line_management.Auth.Context.{AccessLevel, denied, view, edit}
use mooring_line_management.Permissions.{
  GroupGrant, fetch_groups, Request, put, delete, save_level, load_failed, no_groups, View,
  not_allowed, table, permissions_page, access_view, table_view, put_grant, delete_grant,
}

-- `useQuery` after its first fetch has settled, with `retry: false`.
abbrev pub Settled : Outcome (List GroupGrant) → QueryState (List GroupGrant) → Type 0
Settled (resolved gs) q = q ≡ record { result = some gs; is_loading = false; error = none }
Settled (rejected e) q = q ≡ record { result = none; is_loading = false; error = some e }

abbrev pub expected_rows : List GroupGrant → View
expected_rows [] = table [] (no_groups ∷ [])
expected_rows (g ∷ gs) = table (g ∷ gs) []

-- The page that an administrator is to see for a response.
abbrev pub expected_view : Response (Option (List GroupGrant)) → View
expected_view res =
    if res.status == 403
    then not_allowed
    else if is_ok res.status
    then elim res.json [
      | resolved groups ↦ expected_rows (or_else groups [])
      | rejected (plain message) ↦
          table [] ((if truthy message then load_failed message else no_groups) ∷ [])
      | rejected forbidden ↦ not_allowed
      | rejected _ ↦ table [] (load_failed "Failed to load" ∷ [])
    ]
    else table []
        (load_failed (concat ("Failed to load groups (" ∷ show res.status ∷ ")" ∷ [])) ∷ [])

abbrev outcome_view : Outcome (List GroupGrant) → View
outcome_view (resolved gs) = expected_rows gs
outcome_view (rejected forbidden) = not_allowed
outcome_view (rejected (plain message)) =
    table [] ((if truthy message then load_failed message else no_groups) ∷ [])
outcome_view (rejected e) = table [] (load_failed "Failed to load" ∷ [])

plain_view :
    (message : String)
    → ◌≡◌ {A = View}
        (table [] (
          []
          ++ (if true && truthy message
              then load_failed message ∷ []
              else if true && true
              then no_groups ∷ []
              else [])))
        (table [] ((if truthy message then load_failed message else no_groups) ∷ []))
plain_view message =
    elim (truthy message)
      as (λ b.
        ◌≡◌ {A = View} (table [] (if b then load_failed message ∷ [] else no_groups ∷ []))
          (table [] ((if b then load_failed message else no_groups) ∷ []))) [
            | true ↦ refl
            | false ↦ refl
          ]

nonempty_view :
    (message : String)
    → truthy message ≡ true
    → ◌≡◌ {A = View}
        (table [] ((if truthy message then load_failed message else no_groups) ∷ []))
        (table [] (load_failed message ∷ []))
nonempty_view message h = rw h refl

some_row : (gs : List GroupGrant) → (suc (length gs) == 0) ≡ false
some_row gs = ground arith

permissions_page-Settled :
    (o : Outcome (List GroupGrant)) (q : QueryState (List GroupGrant))
    → Settled o q
    → permissions_page true q ≡ outcome_view o
unfolding permissions_page access_view table_view
permissions_page-Settled (resolved []) q h = rw h refl
permissions_page-Settled (resolved (g ∷ gs)) q h = rw (h, some_row gs) refl
permissions_page-Settled (rejected forbidden) q h = rw h refl
permissions_page-Settled (rejected (plain message)) q h = rw h (plain_view message)
permissions_page-Settled (rejected (move_failed status message)) q h = rw h refl
permissions_page-Settled (rejected (refused problem)) q h = rw h refl

json_view :
    (o : Outcome (Option (List GroupGrant)))
    → outcome_view (o >>= λ groups. resolved (or_else groups [])) ≡ elim o [
      | resolved groups ↦ expected_rows (or_else groups [])
      | rejected e ↦ outcome_view (rejected e)
    ]
json_view (resolved groups) = refl
json_view (rejected e) = refl

outcome_view-fetch_groups :
    (res : Response (Option (List GroupGrant)))
    → outcome_view (fetch_groups (resolved res)) ≡ expected_view res
unfolding fetch_groups
outcome_view-fetch_groups res = elim (Bool-cases (res.status == 403)) [
  | inl a ↦ rw a refl
  | inr a ↦ elim (Bool-cases (is_ok res.status)) [
    | inl b ↦ rw (a, b) (json_view res.json)
    | inr b ↦ rw (a, b) (nonempty_view _ (truthy-append "Failed to load groups (" _ refl))
  ]
]

-- An administrator sees the groups of the answer, or exactly one note that says what is wrong.
pub permissions_page-fetched :
    (res : Response (Option (List GroupGrant))) (q : QueryState (List GroupGrant))
    → Settled (fetch_groups (resolved res)) q
    → permissions_page true q ≡ expected_view res
permissions_page-fetched res q h =
    permissions_page-Settled (fetch_groups (resolved res)) q h ∙ outcome_view-fetch_groups res

-- The request that a level calls for.
abbrev pub request_of : String → AccessLevel → Request
request_of id denied = delete id
request_of id level = put id level

rejected-ne-resolved : {A : Type 0} {e : Error} {a : A} → rejected e ≢ resolved a
rejected-ne-resolved h = cc

not_ok :
    (res : Response (Unit {0}))
    → is_ok res.status ≡ false
    → ¬ (
        (r : Response (Unit {0})) × (◌≡◌ {A = Fetched (Unit {0})} (resolved res) (resolved r))
        × (is_ok r.status ≡ true))
not_ok res b (r, e, k) = true-ne-false (sym k ∙ sym (ap ok e) ∙ b)
  where
    ok : Fetched (Unit {0}) → Bool
    ok (resolved r) = is_ok r.status
    ok (rejected _) = true

    true-ne-false : true ≢ false
    true-ne-false h = cc

not_204 : (status : ℕ) → is_ok status ≡ false → (status == 204) ≡ false
not_204 status h = ground arith

put_grant-resolved_iff :
    (fetched : Fetched (Unit {0}))
    → (put_grant fetched ≡ resolved tt)
      ↔ ((res : Response (Unit {0})) × (fetched ≡ resolved res) × (is_ok res.status ≡ true))
unfolding put_grant
put_grant-resolved_iff (rejected e) = (λ h. absurd (rejected-ne-resolved h), λ h. cc)
put_grant-resolved_iff (resolved res) = elim (Bool-cases (is_ok res.status)) [
  | inl b ↦ (λ h. (res, refl, b), λ h. rw b refl)
  | inr b ↦ (λ h. absurd (rejected-ne-resolved (rw b at h)), λ h. absurd (not_ok res b h))
]

delete_grant-resolved_iff :
    (fetched : Fetched (Unit {0}))
    → (delete_grant fetched ≡ resolved tt)
      ↔ ((res : Response (Unit {0})) × (fetched ≡ resolved res) × (is_ok res.status ≡ true))
unfolding delete_grant
delete_grant-resolved_iff (rejected e) = (λ h. absurd (rejected-ne-resolved h), λ h. cc)
delete_grant-resolved_iff (resolved res) = elim (Bool-cases (is_ok res.status)) [
  | inl b ↦ (λ h. (res, refl, b), λ h. rw b refl)
  | inr b ↦ (
    λ h. absurd (rejected-ne-resolved (rw (b, not_204 res.status b) at h)),
    λ h. absurd (not_ok res b h),
  )
]

-- Saving a level succeeds exactly if the server accepts the request that the level calls for: a group
-- that is denied has its grant deleted, any other level is put.
pub save_level-resolved_iff :
    (server : Request → Fetched (Unit {0})) (id : String) (level : AccessLevel)
    → (save_level server id level ≡ resolved tt) ↔ (
        (res : Response (Unit {0})) × (server (request_of id level) ≡ resolved res)
        × (is_ok res.status ≡ true))
unfolding save_level
save_level-resolved_iff server id denied = delete_grant-resolved_iff (server (delete id))
save_level-resolved_iff server id view = put_grant-resolved_iff (server (put id view))
save_level-resolved_iff server id edit = put_grant-resolved_iff (server (put id edit))
