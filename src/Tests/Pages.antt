-- ===== src/Tests/Pages.antt =====
-- The pages of the register and of the inspections, and the service worker, with a browser whose search
-- parameters are pairs and whose path is the address's own.

use mooring_line_management.Base.{
  ℕ, ◌≡◌, refl, String, true, false, not, ◌&&◌, Option, none, some, List, [], ◌∷◌, find, str_eq,
  eq_refl, arith,
}
use mooring_line_management.Auth.Provider.{before_query}
use mooring_line_management.Register.Page.{
  SearchParams, arrive, shown_query, type_query, step, filters,
}
use mooring_line_management.Register.Page.Search.{shown_query-step}
use mooring_line_management.Inspections.{
  TabEvent, open_dialog, set_condition, monitor, submit, sent,
}
use mooring_line_management.Inspections.Pages.{LogsDeclared, sent-IsDeclared}
use mooring_line_management.Files.{too_large, climb, size_unit}
use mooring_line_management.Files.Sizes.{climb_stops}
use mooring_line_management.Contract.Requests.{Request, file_request, FileRequest}
use mooring_line_management.Contract.HttpCalls.{call, file_call}
use mooring_line_management.Offline.{is_cached, is_get}
use mooring_line_management.Offline.Caching.{
  Pathname, path_of, is_plain_address, is_account, call-cached,
}

plain_get : List (String × String) → String → Option String
plain_get ps k = elim (find (λ p. str_eq p.0 k) ps) [ none ↦ none | some p ↦ some p.1 ]

plain_browser : SearchParams
unfolding plain_get
plain_browser = record {
  Params = List (String × String);
  get = plain_get;
  of_pairs = λ ps. ps;
  get-of_none = λ k. refl;
  get-of_one = λ k v. rw (plain_get, eq_refl k) refl;
}

plain_Pathname : Pathname (path_of {N = ℕ})
plain_Pathname = record { of_plain = λ a h. refl }

shown_query-step_example :
    (shown_query plain_browser
        (step plain_browser (type_query "FWD") (arrive plain_browser (plain_browser.of_pairs [])))
      ≡ "FWD")
    × ((filters plain_browser (
          step plain_browser
            (type_query "FWD")
            (arrive plain_browser (plain_browser.of_pairs [])))).q
        ≡ some "FWD")
unfolding plain_browser
shown_query-step_example =
    shown_query-step plain_browser "FWD" (arrive plain_browser (plain_browser.of_pairs []))

abbrev get_bow : Request ℕ
get_bow = file_request (FileRequest.list_photos "l-1")

call-cached_example :
    is_cached
      (call {N = ℕ} (λ s. s) get_bow).method
      (path_of (call {N = ℕ} (λ s. s) get_bow).address)
    ≡ is_get (call {N = ℕ} (λ s. s) get_bow).method && not (is_account get_bow)
unfolding call file_call before_query is_plain_address
call-cached_example = call-cached ℕ path_of plain_Pathname (λ s. s) get_bow refl

abbrev logging : List TabEvent
logging = open_dialog true ∷ set_condition monitor ∷ submit ∷ []

sent-IsDeclared_example : LogsDeclared ℕ (λ s. s) "l1" (sent logging none)
sent-IsDeclared_example = sent-IsDeclared ℕ (λ s. s) "l1" logging

climb_stops_example :
    (climb 9 5_000_000 (0, 1) ≡ size_unit 5_000_000)
    × (too_large 5_000_000 (size_unit 5_000_000) ≡ false)
climb_stops_example = climb_stops 9 5_000_000 (omega arith)
