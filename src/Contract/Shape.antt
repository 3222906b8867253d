-- ===== src/Contract/Shape.antt =====
-- The form of web/src/api/schema.ts: types, the members of objects, operations and paths.
use mooring_line_management.Base.{ℕ, String, Bool, true, false, Option, List}
use mooring_line_management.Int.{ℤ}

pub data SchemaType : Type 0 where
  text number boolean unknown : SchemaType
  -- a union of literals
  one_of : List String → SchemaType
  one_of_numbers : List ℤ → SchemaType
  -- `components["schemas"][name]`
  named : (name : String) → SchemaType
  -- `T[] | null`
  array_or_null : SchemaType → SchemaType

-- A member of an object, or a parameter of an operation; `?` makes it optional.
pub record Member : Type 0 where
  pub name : String
  pub is_required : Bool
  pub type : SchemaType

abbrev pub required : String → SchemaType → Member
required name type = record { name = name; is_required = true; type = type }

abbrev pub optional : String → SchemaType → Member
optional name type = record { name = name; is_required = false; type = type }

pub record Schema : Type 0 where
  pub name : String
  pub members : List Member

-- A body is of type application/json. `success` is the one status that is declared beside the errors
-- (`default`, of type application/problem+json).
pub record Operation : Type 0 where
  pub id : String
  pub query : List Member
  pub path : List Member
  pub request_body : Option SchemaType
  pub success : ℕ
  pub headers : List Member
  pub answer : Option SchemaType
  pub error : SchemaType

pub data Method : Type 0 where
  get put post delete : Method

pub record PathItem : Type 0 where
  pub template : String
  pub methods : List (Method × Operation)
