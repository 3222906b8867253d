-- ===== src/Contract/Templates.antt =====
-- The templates of paths (OpenAPI): a name in braces stands for a value.
use Prim.Native.Char.{code}
use Prim.Native.String
use mooring_line_management.Base.{
  String, Bool, true, false, Option, none, some, List, [], ◌∷◌, ◌++◌, map, find, str_eq, concat,
  ◌==◌, if◌then◌else◌, truthy,
}
use mooring_line_management.Contract.Shape.{Method, get, put, post, delete, Operation}
use mooring_line_management.Contract.Paths.{paths}
use mooring_line_management.Contract.Conforms.{string, Fields, end, field}

pub data Piece : Type 0 where
  literal name : String → Piece

-- `open` is the text since the last brace.
abbrev pieces_from : (since : String) → String → List Piece
pieces_from since String.[] = if truthy since then literal since ∷ [] else []
pieces_from since (String.◌∷◌ c s) = elim (code c == b'{') [
  | true ↦ literal since ∷ pieces_from "" s
  | false ↦ elim (code c == b'}') [
    | true ↦ name since ∷ pieces_from "" s
    | false ↦ pieces_from (String.◌++◌ since (String.◌∷◌ c "")) s
  ]
]

unfoldable pub pieces : String → List Piece
pieces template = pieces_from "" template

-- A name that no parameter has stands for itself.
abbrev pub value : List (String × String) → Piece → String
value ps (literal s) = s
value ps (name s) = elim (find (λ p. str_eq p.0 s) ps) [ none ↦ s | some p ↦ p.1 ]

abbrev pub query_texts : {N : Type 0} → (mark : String) → Fields N → List String
query_texts mark end = []
query_texts mark (field key (string v) fs) = mark ∷ key ∷ "=" ∷ v ∷ query_texts "&" fs
query_texts mark (field key v fs) = query_texts mark fs

-- The address that a template stands for.
unfoldable pub filled :
    {N : Type 0} → (base template : String) → List (String × String) → Fields N → String
unfolding pieces
filled base template path query =
    concat (base ∷ (map (value path) (pieces template) ++ query_texts "?" query))

abbrev method_eq : Method → Method → Bool
method_eq get get = true
method_eq put put = true
method_eq post post = true
method_eq delete delete = true
method_eq _ _ = false

-- The operation that the schema declares for a path and a method.
unfoldable pub operation_at : (template : String) → Method → Option Operation
operation_at template m = elim (find (λ i. str_eq i.template template) paths) [
  | none ↦ none
  | some item ↦ elim (find (λ o. method_eq o.0 m) item.methods) [ none ↦ none | some o ↦ some o.1 ]
]
