-- ===== src/Catalogue.antt =====
-- web/src/features/catalogue/CataloguePage.tsx: the three forms and the notes of the three tables.
pub mod Bodies
use mooring_line_management.Base.{
  String, Bool, true, false, not, ◌&&◌, ◌||◌, Option, none, some, List, [], ◌∷◌, ◌++◌, ◌==◌, length,
  truthy, or_undefined, trim, if◌then◌else◌,
}
use mooring_line_management.Api.Query.{QueryState}

-- `isError` of a query.
abbrev failed : {A : Type 0} → QueryState A → Bool
failed q = elim q.error [ none ↦ false | some e ↦ true ]

pub data Note : Type 0 where
  loading could_not_load none_yet : Note

abbrev is_empty : {A : Type 0} → Option (List A) → Bool
is_empty none = false
is_empty (some xs) = length xs == 0

-- The notes below the rows of a section's table.
unfoldable pub notes : {A : Type 0} → QueryState (List A) → List Note
notes q =
    (if q.is_loading then loading ∷ [] else [])
    ++ (if failed q then could_not_load ∷ [] else [])
    ++ (if (not q.is_loading && not (failed q)) && is_empty q.result then none_yet ∷ [] else [])

-- The forms of makers and of line types: a name, and notes or a description.
pub record NameForm : Type 0 where
  pub name : String
  pub more : String

pub record NameBody : Type 0 where
  pub name : String
  pub more : Option String

abbrev pub is_valid : NameForm → Bool
is_valid f = truthy (trim f.name)

-- The request of `submit`, none where the form is not valid.
unfoldable pub name_request : NameForm → Option NameBody
name_request f =
    if is_valid f
    then some (record { name = trim f.name; more = or_undefined (trim f.more) })
    else none

-- The form after a request that succeeded.
unfoldable pub cleared : NameForm
cleared = record { name = ""; more = "" }

-- "Add maker" needs write access; "Add line type" does not ask for it.
unfoldable pub add_maker_disabled : NameForm → (is_pending can_write : Bool) → Bool
add_maker_disabled f is_pending can_write = (not (is_valid f) || is_pending) || not can_write

unfoldable pub add_line_type_disabled : NameForm → (is_pending can_write : Bool) → Bool
add_line_type_disabled f is_pending can_write = not (is_valid f) || is_pending

pub record ProductForm : Type 0 where
  pub maker_id : String
  pub line_type_id : String
  pub product_name : String
  pub construction_type : String
  pub default_length : String
  pub can_be_turned : Bool
  pub manufacturer_manual_ref : String
  pub notes : String

pub record ProductBody (N : Type 0) : Type 0 where
  pub maker_id : String
  pub line_type_id : String
  pub product_name : String
  pub construction_type : Option String
  pub default_length : Option N
  pub can_be_turned : Bool
  pub manufacturer_manual_ref : Option String
  pub notes : Option String

unfoldable pub is_valid_product : ProductForm → Bool
is_valid_product f = truthy f.maker_id && truthy f.line_type_id && truthy (trim f.product_name)

product_body : {N : Type 0} → (to_number : String → N) → ProductForm → ProductBody N
product_body to_number f = record {
  maker_id = f.maker_id;
  line_type_id = f.line_type_id;
  product_name = trim f.product_name;
  construction_type = or_undefined (trim f.construction_type);
  default_length = if truthy f.default_length then some (to_number f.default_length) else none;
  can_be_turned = f.can_be_turned;
  manufacturer_manual_ref = or_undefined (trim f.manufacturer_manual_ref);
  notes = or_undefined (trim f.notes);
}

-- The request of the dialog's `submit`; `to_number` is `Number`.
unfoldable pub product_request :
    {N : Type 0} → (to_number : String → N) → ProductForm → Option (ProductBody N)
unfolding is_valid_product product_body
product_request to_number f = if is_valid_product f then some (product_body to_number f) else none
