-- ===== src/Permissions/Optimistic.antt =====
-- The optimistic update and its rollback.
use mooring_line_management.Base.{
  ◌≡◌, ◌≢◌, refl, sym, ◌∙◌, String, Bool, true, false, not, Option, none, some, List, [], ◌∷◌, ◌++◌,
  filter, find, any, str_eq, eq_iff, eq_refl, if◌then◌else◌, if_false, Bool-cases, inl, inr, arith,
}
use mooring_line_management.Api.Query.{QueryClient}
use mooring_line_management.Auth.Context.{AccessLevel}
use mooring_line_management.Permissions.{
  GroupGrant, set_level, Access, changed, failed, is_of, on_mutate, on_error, on_settled, step, run,
}

-- The level that a row of the list shows for a group.
unfoldable pub shown_level : String → List GroupGrant → Option AccessLevel
shown_level id [] = none
shown_level id (g ∷ gs) = if str_eq g.group_id id then some g.level else shown_level id gs

-- A choice for one group changes the level of no other one.
pub shown_level-set_level_other :
    (id other : String) (level : AccessLevel) (gs : List GroupGrant)
    → id ≢ other
    → shown_level other (set_level id level gs) ≡ shown_level other gs
unfolding shown_level set_level
shown_level-set_level_other id other level [] n = refl
shown_level-set_level_other id other level (g ∷ gs) n = ground (
  arith,
  eq_iff g.group_id id,
  eq_iff g.group_id other,
  shown_level-set_level_other id other level gs n,
)

pub shown_level-set_level_same :
    (id : String) (level old : AccessLevel) (gs : List GroupGrant)
    → shown_level id gs ≡ some old
    → shown_level id (set_level id level gs) ≡ some level
unfolding shown_level set_level
shown_level-set_level_same id level old [] h = cc
shown_level-set_level_same id level old (g ∷ gs) h = elim (Bool-cases (str_eq g.group_id id)) [
  | inl e ↦ rw (e, e) refl
  | inr e ↦ rw (e, e) (shown_level-set_level_same id level old gs (sym (if_false _ _ e) ∙ h))
]

find-append_none {ℓ} :
    {A : Type ℓ} (p : A → Bool) (xs : List A) (y : A)
    → any p xs ≡ false
    → p y ≡ true
    → find p (xs ++ y ∷ []) ≡ some y
find-append_none p [] y h k = rw k refl
find-append_none p (x ∷ xs) y h k = ground (arith, find-append_none p xs y)

filter-append_none {ℓ} :
    {A : Type ℓ} (p : A → Bool) (xs : List A) (y : A)
    → any p xs ≡ false
    → p y ≡ true
    → filter (λ x. not (p x)) (xs ++ y ∷ []) ≡ xs
filter-append_none p [] y h k = rw k refl
filter-append_none p (x ∷ xs) y h k = ground (arith, filter-append_none p xs y)

module _ {Q : Type 0} ⦃qc : QueryClient Q (List GroupGrant)⦄ where
  -- A choice that the server refuses leaves no trace: with no other change of the list in between, the
  -- failure restores the list that was shown, and the row is free again.
  pub failed-changed :
      (s : Access Q) (id : String) (level : AccessLevel) (gs : List GroupGrant)
      → qc.get_query_data s.cache ≡ some gs
      → any (is_of id) s.pending ≡ false
      → let t = step (failed id) (step (changed id level) s) in
        (qc.get_query_data t.cache ≡ some gs) × (t.pending ≡ s.pending)
  unfolding step on_mutate on_error on_settled
  failed-changed s id level gs h free =
      rw
        (
          free,
          find-append_none (is_of id) s.pending
              (record { id = id; prev = qc.get_query_data (qc.cancel_queries s.cache) }) free
              (eq_refl id),
          filter-append_none (is_of id) s.pending
              (record { id = id; prev = qc.get_query_data (qc.cancel_queries s.cache) }) free
              (eq_refl id),
          qc.get-cancel,
          h,
        )
        (qc.get-invalidate _ ∙ qc.get-set _ _, refl)

  -- Two choices at once, both refused in the order in which they were made: the second rollback
  -- restores the list that the first choice had changed, so the refused level of the first group is
  -- shown until the next refetch.
  pub run-both_failed :
      (q : Q) (a b : String) (k l : AccessLevel) (gs : List GroupGrant)
      → qc.get_query_data q ≡ some gs
      → a ≢ b
      → qc.get_query_data
          (run
            (changed a k ∷ changed b l ∷ failed a ∷ failed b ∷ [])
            (record { cache = q; pending = [] })).cache
        ≡ some (set_level a k gs)
  unfolding step run on_mutate on_error on_settled
  run-both_failed q a b k l gs h n =
      simp (eq_refl a, eq_refl b, differ, differ', qc.get-cancel, qc.get-set, qc.get-invalidate, h)
        refl
    where
      differ : str_eq a b ≡ false
      differ = ground (arith, eq_iff a b)

      differ' : str_eq b a ≡ false
      differ' = ground (arith, eq_iff b a)
