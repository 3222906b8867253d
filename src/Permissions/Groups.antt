-- ===== src/Permissions/Groups.antt =====
-- The list of groups under every order of choices, answers and refetches.
use mooring_line_management.Base.{
  ◌≡◌, refl, sym, ap, ◌∙◌, subst, String, true, false, Option, none, some, List, [], ◌∷◌, map, find,
  any, str_eq, if◌then◌else◌, All, All-append, All-filter, All-find, Bool-cases, inl, inr,
}
use mooring_line_management.Api.Query.{QueryClient}
use mooring_line_management.Auth.Context.{AccessLevel}
use mooring_line_management.Permissions.{
  GroupGrant, set_level, Pending, Access, Event, changed, succeeded, failed, fetched, is_of,
  on_mutate, on_error, on_settled, fail, step, run,
}

-- What a choice of levels must not touch: the groups, their names and their order.
unfoldable pub identities : List GroupGrant → List (String × String)
identities gs = map (λ g. (g.group_id, g.name)) gs

identities-set_level :
    (id : String) (level : AccessLevel) (gs : List GroupGrant)
    → identities (set_level id level gs) ≡ identities gs
unfolding identities set_level
identities-set_level id level [] = refl
identities-set_level id level (g ∷ gs) =
    elim (str_eq g.group_id id)
      as (λ b.
        ◌≡◌ {A = List (String × String)}
          ((
            (if b then record g { level = level } else g).group_id,
            (if b then record g { level = level } else g).name,
          )
            ∷ identities (set_level id level gs))
          ((g.group_id, g.name) ∷ identities gs)) [
            | true ↦ ap (λ is. (g.group_id, g.name) ∷ is) (identities-set_level id level gs)
            | false ↦ ap (λ is. (g.group_id, g.name) ∷ is) (identities-set_level id level gs)
          ]

-- A list of the given groups.
abbrev pub Lists : List (String × String) → Option (List GroupGrant) → Type 0
Lists is o = (gs : List GroupGrant) × (o ≡ some gs) × (identities gs ≡ is)

abbrev pub Fetches : List (String × String) → Event → Type 0
Fetches is (fetched gs) = identities gs ≡ is
Fetches is _ = Unit {0}

module _ {Q : Type 0} ⦃qc : QueryClient Q (List GroupGrant)⦄ where
  abbrev pub ListsGroups : List (String × String) → Access Q → Type 0
  ListsGroups is s = Lists is (qc.get_query_data s.cache) × All (λ p. Lists is p.prev) s.pending

  on_mutate-Lists :
      (is : List (String × String)) (id : String) (level : AccessLevel) (q : Q)
      → Lists is (qc.get_query_data q)
      → Lists is (qc.get_query_data (on_mutate id level q).0) × Lists is (on_mutate id level q).1
  unfolding on_mutate
  on_mutate-Lists is id level q (gs, e, i) = (
    (
      set_level id level gs,
      qc.get-set _ _ ∙ rw (qc.get-cancel, e) refl,
      identities-set_level id level gs ∙ i,
    ),
    (gs, qc.get-cancel q ∙ e, i),
  )

  get-on_error :
      (o : Option (List GroupGrant)) (gs : List GroupGrant) (q : Q)
      → o ≡ some gs
      → qc.get_query_data (on_error o q) ≡ some gs
  unfolding on_error
  get-on_error none gs q e = cc
  get-on_error (some gs') gs q e = qc.get-set _ _ ∙ e

  fail-Lists :
      (is : List (String × String)) (p : Option Pending) (q : Q)
      → ((x : Pending) → p ≡ some x → Lists is x.prev)
      → Lists is (qc.get_query_data q)
      → Lists is (qc.get_query_data (on_settled (fail p q)))
  unfolding on_settled fail on_error
  fail-Lists is none q k h = subst (Lists is) (sym (qc.get-invalidate q)) h
  fail-Lists is (some p) q k h =
      let (gs, e, i) = k p refl in (gs, qc.get-invalidate _ ∙ get-on_error p.prev gs q e, i)

  step-ListsGroups :
      (is : List (String × String)) (e : Event) (s : Access Q)
      → Fetches is e
      → ListsGroups is s
      → ListsGroups is (step e s)
  unfolding step on_settled on_mutate
  step-ListsGroups is (changed id level) s f h =
      let m = on_mutate-Lists is id level s.cache h.0 in
      elim (Bool-cases (any (is_of id) s.pending)) [
        | inl b ↦ rw b h
        | inr b ↦ rw b (m.0, All-append _ s.pending _ h.1 (m.1, tt))
      ]
  step-ListsGroups is (succeeded id) s f h =
      (subst (Lists is) (sym (qc.get-invalidate s.cache)) h.0, All-filter _ _ s.pending h.1)
  step-ListsGroups is (failed id) s f h = (
    fail-Lists is (find (is_of id) s.pending) s.cache
        (λ x e. All-find (λ p. Lists is p.prev) _ s.pending e h.1) h.0,
    All-filter _ _ s.pending h.1,
  )
  step-ListsGroups is (fetched gs) s f h = ((gs, qc.get-set _ _, f), h.1)

  -- Whatever the order of choices, refusals and refetches, the page goes on listing the same groups in
  -- the same order under the same names, as long as the refetches do: an optimistic update or a
  -- rollback changes levels only.
  pub run-ListsGroups :
      (is : List (String × String)) (es : List Event) (s : Access Q)
      → All (Fetches is) es
      → ListsGroups is s
      → ListsGroups is (run es s)
  unfolding run
  run-ListsGroups is [] s f h = h
  run-ListsGroups is (e ∷ es) s f h =
      run-ListsGroups is es (step e s) f.1 (step-ListsGroups is e s f.0 h)
