-- ===== src/Contract/Conforms.antt =====
-- JSON values, and when one is of a type of the schema. `N` is the type of the fractional numbers.
use mooring_line_management.Base.{
  String, Bool, true, false, ◌&&◌, not, ◌||◌, none, some, List, [], ◌∷◌, str_eq, find, any,
}
use mooring_line_management.Int.{ℤ, int_le}
use mooring_line_management.Contract.Shape.{
  SchemaType, text, number, boolean, unknown, one_of, one_of_numbers, named, array_or_null, Member,
}
use mooring_line_management.Contract.Schemas.{schemas}

mutual
  pub data Json (N : Type 0) : Type 0 where
    null : Json N
    bool : Bool → Json N
    whole : ℤ → Json N
    fraction : N → Json N
    string : String → Json N
    array : Items N → Json N
    object : Fields N → Json N

  pub data Items (N : Type 0) : Type 0 where
    nil : Items N
    cons : Json N → Items N → Items N

  pub data Fields (N : Type 0) : Type 0 where
    end : Fields N
    field : (name : String) → Json N → Fields N → Fields N

module _ {N : Type 0} where
  abbrev pub has_field : Fields N → String → Bool
  has_field end name = false
  has_field (field k v fs) name = str_eq name k || has_field fs name

  -- Every required member is there.
  abbrev pub has_required : List Member → Fields N → Bool
  has_required [] fs = true
  has_required (m ∷ ms) fs = (not m.is_required || has_field fs m.name) && has_required ms fs

abbrev pub int_eq : ℤ → ℤ → Bool
int_eq a b = int_le a b && int_le b a

-- No member is there that the schema does not declare.
unfoldable mutual
  pub conforms : {N : Type 0} → SchemaType → Json N → Bool
  conforms unknown v = true
  conforms text (string s) = true
  conforms number (whole n) = true
  conforms number (fraction x) = true
  conforms boolean (bool b) = true
  conforms (one_of l) (string s) = any (str_eq s) l
  conforms (one_of_numbers l) (whole n) = any (int_eq n) l
  conforms (array_or_null t) null = true
  conforms (array_or_null t) (array xs) = items_conform t xs
  conforms (named name) (object fs) = elim (find (λ s. str_eq s.name name) schemas) [
    | none ↦ false
    | some s ↦ has_required s.members fs && fields_conform s.members fs
  ]
  conforms _ v = false

  pub items_conform : {N : Type 0} → SchemaType → Items N → Bool
  items_conform t nil = true
  items_conform t (cons v vs) = conforms t v && items_conform t vs

  pub fields_conform : {N : Type 0} → List Member → Fields N → Bool
  fields_conform ms end = true
  fields_conform ms (field name v fs) =
      elim (find (λ m. str_eq m.name name) ms) [ none ↦ false | some m ↦ conforms m.type v ]
      && fields_conform ms fs
