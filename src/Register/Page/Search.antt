-- ===== src/Register/Page/Search.antt =====
-- A search text is kept by the address that the search box writes.
use mooring_line_management.Base.{
  ◌≡◌, sym, ap, ◌∙◌, String, false, [], ◌∷◌, truthy, or_undefined, or_else, eq_iff, arith, if_true,
  if_false, Bool-cases, inl, inr, if◌then◌else◌,
}
use mooring_line_management.Register.Table.{request_filters}
use mooring_line_management.Register.Page.{
  SearchParams, Page, shown_query, type_query, step, inputs, filters,
}

empty_of_falsy : (t : String) → truthy t ≡ false → t ≡ ""
empty_of_falsy t h = (eq_iff t "").0 (ground arith)

module _ (browser : SearchParams) where
  -- What is typed into the search box stays in it, and the page asks the API for exactly that text, or
  -- for no text where the box is empty.
  pub shown_query-step :
      (text : String) (p : Page browser)
      → (shown_query browser (step browser (type_query text) p) ≡ text)
        × ((filters browser (step browser (type_query text) p)).q ≡ or_undefined text)
  unfolding shown_query step filters inputs request_filters
  shown_query-step text p = (kept text, ap or_undefined (kept text))
    where
      kept :
          (t : String)
          → or_else (browser.get (browser.of_pairs (if truthy t then ("q", t) ∷ [] else [])) "q") ""
            ≡ t
      kept t = elim (Bool-cases (truthy t)) [
        | inl e ↦
            ap (λ ps. or_else (browser.get (browser.of_pairs ps) "q") "") (if_true _ _ e)
            ∙ ap (λ o. or_else o "") (browser.get-of_one "q" t)
        | inr e ↦
            ap (λ ps. or_else (browser.get (browser.of_pairs ps) "q") "") (if_false _ _ e)
            ∙ ap (λ o. or_else o "") (browser.get-of_none "q")
            ∙ sym (empty_of_falsy t e)
      ]
