-- ===== src/Contract/Sending.antt =====
-- When the texts of a body are among those that the schema lists, the body is of the type that its
-- operation asks for.
use mooring_line_management.Base.{
  ◌≡◌, refl, String, true, false, Option, none, some, List, [], ◌∷◌, find, any, str_eq, All,
}
use mooring_line_management.Int.{ℤ, pos, negsuc}
use mooring_line_management.Schema.{WinchBody, StorageBody, LayoutBody}
use mooring_line_management.Contract.Shape.{SchemaType, named, Member}
use mooring_line_management.Contract.Conforms.{
  Json, Fields, int_eq, conforms, items_conform, fields_conform,
}
use mooring_line_management.Contract.Bodies.{
  optional_field, items, winch_json, storage_json, layout_json,
}

-- The text is one of the list.
abbrev pub IsOneOf : List String → String → Type 0
IsOneOf l s = any (str_eq s) l ≡ true

-- The text is one of the list, if it is there.
abbrev pub IsOneOfOption : List String → Option String → Type 0
IsOneOfOption l none = Unit {0}
IsOneOfOption l (some s) = IsOneOf l s

abbrev pub stations : List String
stations = "fwd" ∷ "aft" ∷ []

abbrev pub drives : List String
drives = "electric" ∷ "hydraulic" ∷ []

abbrev pub orientations : List ℤ
orientations = pos 0 ∷ pos 45 ∷ negsuc 44 ∷ pos 90 ∷ negsuc 89 ∷ []

abbrev pub sides : List String
sides = "A" ∷ "B" ∷ "n/a" ∷ []

abbrev pub lifecycles : List String
lifecycles = "ordered" ∷ "active" ∷ "spare" ∷ "retired" ∷ []

abbrev pub conditions : List String
conditions = "Good" ∷ "Monitor" ∷ "Action" ∷ []

abbrev pub kinds : List String
kinds = "certificate" ∷ "manual" ∷ "guide" ∷ []

module _ {N : Type 0} where
  pub record WinchLiterals (w : WinchBody N) : Type 0 where
    pub station : IsOneOf stations w.station
    pub drive_type : IsOneOf drives w.drive_type
    pub orientation : any (int_eq w.orientation) orientations ≡ true

  -- What a member that may be missing has to be, if it is there.
  abbrev pub IsAccepted : List Member → String → Json N → Type 0
  IsAccepted ms name v =
      elim (find (λ m. str_eq m.name name) ms) [ none ↦ false | some m ↦ conforms m.type v ] ≡ true

  pub fields_conform-optional_field :
      {A : Type 0} (ms : List Member) (name : String) (f : A → Json N) (o : Option A)
      (rest : Fields N)
      → ((a : A) → o ≡ some a → IsAccepted ms name (f a))
      → fields_conform ms rest ≡ true
      → fields_conform ms (optional_field name f o rest) ≡ true
  unfolding conforms optional_field
  fields_conform-optional_field ms name f none rest h k = k
  fields_conform-optional_field ms name f (some a) rest h k = rw (h a refl, k) refl

  items_conform-items :
      {A : Type 0} (P : A → Type 0) (t : SchemaType) (f : A → Json N) (xs : List A)
      → ((a : A) → P a → conforms t (f a) ≡ true)
      → All P xs
      → items_conform t (items f xs) ≡ true
  unfolding conforms items
  items_conform-items P t f [] h k = refl
  items_conform-items P t f (x ∷ xs) h k = rw (h x k.0, items_conform-items P t f xs h k.1) refl

  winch_json-conforms :
      (w : WinchBody N) → WinchLiterals w → conforms (named "WinchBody") (winch_json w) ≡ true
  unfolding conforms optional_field
  winch_json-conforms w h =
      elim w.id as (λ o. conforms (named "WinchBody") (winch_json (record w { id = o })) ≡ true) [
        | none ↦ rw (h.station, h.drive_type, h.orientation) refl
        | some id ↦ rw (h.station, h.drive_type, h.orientation) refl
      ]

  storage_json-conforms :
      (s : StorageBody N)
      → IsOneOf stations s.station
      → conforms (named "StorageBody") (storage_json s) ≡ true
  unfolding conforms optional_field
  storage_json-conforms s h =
      elim s.id
        as (λ o. conforms (named "StorageBody") (storage_json (record s { id = o })) ≡ true) [
          | none ↦ rw h refl
          | some id ↦ rw h refl
        ]

  -- A save is of the type `Save-layoutRequest`.
  pub layout_json-conforms :
      (b : LayoutBody N)
      → All WinchLiterals b.winches
      → All (λ s. IsOneOf stations s.station) b.storage
      → conforms (named "Save-layoutRequest") (layout_json b) ≡ true
  unfolding conforms
  layout_json-conforms b h k =
      rw
        (
          items_conform-items WinchLiterals (named "WinchBody") winch_json b.winches
              winch_json-conforms h,
          items_conform-items (λ s. IsOneOf stations s.station) (named "StorageBody") storage_json
              b.storage storage_json-conforms k,
        )
        refl
