-- ===== src/Tests/Permissions.antt =====
-- The permissions page over a cache that is the list itself.
use mooring_line_management.Base.{
  ◌≡◌, ◌≢◌, refl, String, true, false, Option, none, some, List, [], ◌∷◌, arith, eq_iff,
}
use mooring_line_management.Api.Http.{resolved, Response, Fetched}
use mooring_line_management.Api.Query.{QueryClient}
use mooring_line_management.Auth.Context.{denied, view, edit}
use mooring_line_management.Permissions.{
  GroupGrant, set_level, Access, changed, succeeded, failed, step, run, Request, fetch_groups,
  permissions_page,
}
use mooring_line_management.Permissions.Optimistic.{
  shown_level, shown_level-set_level_same, failed-changed, run-both_failed,
}
use mooring_line_management.Permissions.Groups.{identities, ListsGroups, run-ListsGroups}
use mooring_line_management.Permissions.Views.{expected_view, permissions_page-fetched}

abbrev Cache : Type 0
Cache = Option (List GroupGrant)

instance abbrev list_client : QueryClient Cache (List GroupGrant)
list_client = record {
  get_query_data = λ q. q;
  set_query_data = λ f q. some (f q);
  cancel_queries = λ q. q;
  invalidate_queries = λ q. q;
  get-set = λ f q. refl;
  get-cancel = λ q. refl;
  get-invalidate = λ q. refl;
}

abbrev crew : List GroupGrant
crew =
    record { group_id = "1"; name = "Deck"; level = edit }
    ∷ record { group_id = "2"; name = "Bridge"; level = view }
    ∷ []

abbrev quiet : Access Cache
quiet = record { cache = some crew; pending = [] }

one-ne-two : ◌≢◌ {A = String} "1" "2"
one-ne-two = ground (arith, eq_iff "1" "2")

shown_level-set_level_same_example : shown_level "1" (set_level "1" denied crew) ≡ some denied
unfolding shown_level
shown_level-set_level_same_example = shown_level-set_level_same "1" denied edit crew refl

failed-changed_example :
    let t = step (failed "1") (step (changed "1" view) quiet) in
    (t.cache ≡ some crew) × (t.pending ≡ [])
failed-changed_example = failed-changed quiet "1" view crew refl refl

run-both_failed_example :
    (run (changed "1" view ∷ changed "2" edit ∷ failed "1" ∷ failed "2" ∷ []) quiet).cache
    ≡ some (set_level "1" view crew)
run-both_failed_example = run-both_failed (some crew) "1" "2" view edit crew refl one-ne-two

run-ListsGroups_example :
    ListsGroups
      (("1", "Deck") ∷ ("2", "Bridge") ∷ [])
      (run (changed "1" view ∷ failed "1" ∷ succeeded "2" ∷ []) quiet)
unfolding identities
run-ListsGroups_example =
    run-ListsGroups (("1", "Deck") ∷ ("2", "Bridge") ∷ [])
      (changed "1" view ∷ failed "1" ∷ succeeded "2" ∷ []) quiet (tt, (tt, (tt, tt)))
      ((crew, refl, refl), tt)

abbrev listed : Response (Option (List GroupGrant))
listed = record { status = 200; status_text = "OK"; json = resolved (some crew); problem = none }

permissions_page-fetched_example :
    permissions_page true (record { result = some crew; is_loading = false; error = none })
    ≡ expected_view listed
unfolding fetch_groups
permissions_page-fetched_example =
    permissions_page-fetched listed
      (record { result = some crew; is_loading = false; error = none }) refl

accepting : Request → Fetched (Unit {0})
accepting r =
    resolved
      (record { status = 204; status_text = "No Content"; json = resolved tt; problem = none })
