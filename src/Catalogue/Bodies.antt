-- ===== src/Catalogue/Bodies.antt =====
-- What the catalogue's forms send.
use mooring_line_management.Base.{
  ◌≡◌, ◌≢◌, refl, sym, subst, String, Bool, true, false, Option, none, some, truthy, or_undefined,
  trim, trim_idem, if◌then◌else◌, if_true, if_false, Bool-cases, inl, inr, arith,
}
use mooring_line_management.Catalogue.{
  NameForm, NameBody, is_valid, name_request, ProductForm, ProductBody, is_valid_product,
  product_body, product_request,
}

-- A text that is sent: not empty, and without white space around it.
abbrev pub IsTidy : String → Type 0
IsTidy s = (truthy s ≡ true) × (trim s ≡ s)

abbrev pub IsTidyOption : Option String → Type 0
IsTidyOption none = Unit {0}
IsTidyOption (some s) = IsTidy s

or_undefined-IsTidyOption : (s : String) → IsTidyOption (or_undefined (trim s))
or_undefined-IsTidyOption s = elim (Bool-cases (truthy (trim s))) [
  | inl e ↦ subst IsTidyOption (sym (if_true _ _ e)) (e, trim_idem s)
  | inr e ↦ subst IsTidyOption (sym (if_false _ _ e)) tt
]

-- What holds of the body holds of a request that is sent.
request_of_body {ℓ} :
    {A : Type 0} (P : A → Type ℓ) (valid : Bool) (body sent : A)
    → (valid ≡ true → P body)
    → (if valid then some body else none) ≡ some sent
    → P sent
request_of_body P true body sent h e = subst P (some_injective e) (h refl)
  where
    some_injective : {A : Type 0} {x y : A} → some x ≡ some y → x ≡ y
    some_injective q = cc
request_of_body P false body sent h e = absurd (none-ne-some e)
  where
    none-ne-some : {A : Type 0} {x : A} → none ≢ some x
    none-ne-some q = cc

-- Whatever is typed, a maker or a line type is only created under a name that is not blank; its name and
-- its text have no white space around them, and a blank text is left out.
pub name_request-IsTidy :
    (f : NameForm) (body : NameBody)
    → name_request f ≡ some body
    → IsTidy body.name × IsTidyOption body.more
unfolding name_request
name_request-IsTidy f body e =
    request_of_body (λ b. IsTidy b.name × IsTidyOption b.more) (is_valid f) _ body
      (λ v. ((v, trim_idem f.name), or_undefined-IsTidyOption f.more)) e

-- A product is only created for a maker and a line type, under a name that is not blank, and no text of
-- it that is sent is blank or has white space around it.
pub product_request-IsTidy :
    {N : Type 0} (to_number : String → N) (f : ProductForm) (body : ProductBody N)
    → product_request to_number f ≡ some body
    → (truthy body.maker_id ≡ true)
      × (truthy body.line_type_id ≡ true)
      × IsTidy body.product_name
      × IsTidyOption body.construction_type
      × IsTidyOption body.manufacturer_manual_ref
      × IsTidyOption body.notes
unfolding product_request is_valid_product product_body
product_request-IsTidy to_number f body e =
    request_of_body
      (λ b.
        (truthy b.maker_id ≡ true)
        × (truthy b.line_type_id ≡ true)
        × IsTidy b.product_name
        × IsTidyOption b.construction_type
        × IsTidyOption b.manufacturer_manual_ref
        × IsTidyOption b.notes)
      (is_valid_product f) (product_body to_number f) body
      (λ v. (
        ground (arith, v),
        ground (arith, v),
        (ground (arith, v), trim_idem f.product_name),
        or_undefined-IsTidyOption f.construction_type,
        or_undefined-IsTidyOption f.manufacturer_manual_ref,
        or_undefined-IsTidyOption f.notes,
      ))
      e
