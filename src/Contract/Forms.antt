-- ===== src/Contract/Forms.antt =====
-- The bodies of the forms are of the types that their operations ask for.
use mooring_line_management.Base.{
  ◌≡◌, ◌≢◌, refl, subst, String, true, false, ◌||◌, Option, none, some, List, str_eq,
}
use mooring_line_management.Schema.{LineBody}
use mooring_line_management.Api.Hooks.{MoveBody}
use mooring_line_management.Auth.Context.{AccessLevel, denied, view, edit}
use mooring_line_management.Catalogue.{NameBody, ProductBody}
use mooring_line_management.Files.{PhotoBody, CertificateBody, InspectionBody}
use mooring_line_management.Contract.Shape.{named, Member}
use mooring_line_management.Contract.Conforms.{
  Json, string, fraction, Fields, has_field, conforms, fields_conform,
}
use mooring_line_management.Contract.Bodies.{
  optional_field, line_json, move_json, grant_json, turn_json, name_json, product_json, photo_json,
  certificate_json, inspection_json,
}
use mooring_line_management.Contract.Sending.{
  IsOneOf, IsOneOfOption, sides, lifecycles, conditions, kinds, IsAccepted,
  fields_conform-optional_field,
}

module _ (N : Type 0) where
  -- An optional text that is one of a list, as the schema's member wants it.
  fields_conform-one_of :
      (l : List String) (ms : List Member) (name : String) (o : Option String) (rest : Fields N)
      → ((s : String) → IsOneOf l s → IsAccepted {N = N} ms name (string s))
      → IsOneOfOption l o
      → fields_conform ms rest ≡ true
      → fields_conform ms (optional_field name string o rest) ≡ true
  fields_conform-one_of l ms name o rest f h k =
      fields_conform-optional_field ms name string o rest (λ s e. f s (subst (IsOneOfOption l) e h))
        k

  pub move_json-conforms :
      (b : MoveBody) → conforms (named "Move-lineRequest") (move_json {N = N} b) ≡ true
  unfolding conforms
  move_json-conforms b =
      fields_conform-optional_field _ _ _ b.to_drum_id _ (λ a e. refl)
        (fields_conform-optional_field _ _ _ b.to_storage_id _ (λ a e. refl) refl)

  pub turn_json-conforms :
      (o : Option String) → conforms (named "TurnBody") (turn_json {N = N} o) ≡ true
  unfolding conforms
  turn_json-conforms o = fields_conform-optional_field _ _ _ o _ (λ a e. refl) refl

  pub grant_json-conforms :
      (level : AccessLevel)
      → level ≢ denied
      → conforms (named "Put-access-grantRequest") (grant_json {N = N} level) ≡ true
  unfolding conforms
  grant_json-conforms denied h = absurd (h refl)
  grant_json-conforms view h = refl
  grant_json-conforms edit h = refl

  pub maker_json-conforms :
      (b : NameBody) → conforms (named "Create-makerRequest") (name_json {N = N} "notes" b) ≡ true
  unfolding conforms
  maker_json-conforms b = fields_conform-optional_field _ _ _ b.more _ (λ a e. refl) refl

  pub line_type_json-conforms :
      (b : NameBody)
      → conforms (named "Create-line-typeRequest") (name_json {N = N} "description" b) ≡ true
  unfolding conforms
  line_type_json-conforms b = fields_conform-optional_field _ _ _ b.more _ (λ a e. refl) refl

  pub photo_json-conforms :
      (b : PhotoBody)
      → IsOneOfOption sides b.side
      → IsOneOfOption conditions b.condition_at_capture
      → conforms (named "File-add-photoRequest") (photo_json {N = N} b) ≡ true
  unfolding conforms
  photo_json-conforms b h k =
      fields_conform-optional_field _ _ _ b.content_type _ (λ a e. refl)
        (fields_conform-optional_field _ _ _ b.taken_at _ (λ a e. refl)
          (fields_conform-one_of sides _ _ b.side _ (λ s o. o) h
            (fields_conform-one_of conditions _ _ b.condition_at_capture _ (λ s o. o) k refl)))

  pub certificate_json-conforms :
      (b : CertificateBody)
      → IsOneOfOption kinds b.kind
      → conforms (named "File-add-certRequest") (certificate_json {N = N} b) ≡ true
  unfolding conforms
  certificate_json-conforms b h =
      fields_conform-optional_field _ _ _ b.content_type _ (λ a e. refl)
        (fields_conform-one_of kinds _ _ b.kind _ (λ s o. o) h refl)

  pub inspection_json-conforms :
      (b : InspectionBody)
      → IsOneOf conditions b.condition_status
      → conforms (named "InspLogBody") (inspection_json {N = N} b) ≡ true
  unfolding conforms
  inspection_json-conforms b h = rw h (
      fields_conform-optional_field _ _ _ b.inspected_by _ (λ a e. refl)
        (fields_conform-optional_field _ _ _ b.notes _ (λ a e. refl)
          (fields_conform-optional_field _ _ _ b.inspected_at _ (λ a e. refl) refl)))

module _ {N : Type 0} where
  has_field-optional_field :
      {A : Type 0} (key name : String) (f : A → Json N) (o : Option A) (rest : Fields N)
      → has_field rest key ≡ true
      → has_field (optional_field name f o rest) key ≡ true
  unfolding optional_field
  has_field-optional_field key name f none rest h = h
  has_field-optional_field key name f (some a) rest h =
      rw h (elim (str_eq key name) as (λ b. (b || true) ≡ true) [ true ↦ refl | false ↦ refl ])

  pub line_json-conforms :
      (b : LineBody N)
      → IsOneOf lifecycles b.lifecycle_status
      → IsOneOfOption sides b.current_side
      → conforms (named "LineBody") (line_json b) ≡ true
  unfolding conforms
  line_json-conforms b h k =
      fields_conform-optional_field _ _ _ b.tag_number _ (λ a e. refl)
        (fields_conform-optional_field _ _ _ b.certificate_number _ (λ a e. refl)
          (fields_conform-optional_field _ _ _ b.length _ (λ a e. refl)
            (fields_conform-optional_field _ _ _ b.manufacture_date _ (λ a e. refl)
              (fields_conform-optional_field _ _ _ b.installation_date _ (λ a e. refl)
                (rw h (fields_conform-one_of N sides _ _ b.current_side _ (λ s o. o) k refl))))))

  -- `can_be_turned` is required and stands behind two members that may be missing.
  pub product_json-conforms :
      (b : ProductBody N) → conforms (named "Create-productRequest") (product_json b) ≡ true
  unfolding conforms
  product_json-conforms b =
      rw
        (has_field-optional_field "can_be_turned" "construction_type" string b.construction_type _ (
          has_field-optional_field "can_be_turned" "default_length" fraction b.default_length _
            refl))
        (fields_conform-optional_field _ _ _ b.construction_type _ (λ a e. refl)
          (fields_conform-optional_field _ _ _ b.default_length _ (λ a e. refl)
            (fields_conform-optional_field _ _ _ b.manufacturer_manual_ref _ (λ a e. refl)
              (fields_conform-optional_field _ _ _ b.notes _ (λ a e. refl) refl))))
