-- ===== src/Contract/Calls.antt =====
-- When the schema declares the operation of a call.
use mooring_line_management.Base.{◌≡◌, ◌≢◌, String, true, Option, none, some, List, map, All}
use mooring_line_management.Auth.Context.{denied}
use mooring_line_management.Contract.Shape.{SchemaType, Operation}
use mooring_line_management.Contract.Conforms.{Json, Fields, conforms, has_required, fields_conform}
use mooring_line_management.Contract.Templates.{filled, operation_at}
use mooring_line_management.Contract.Requests.{
  TypedRequest, FileRequest, InspectionRequest, AccessRequest, Request, typed_request, file_request,
  inspection_request, access_request,
}
use mooring_line_management.Contract.HttpCalls.{api_base, Address, typed, raw, HttpCall}
use mooring_line_management.Contract.Sending.{
  IsOneOf, IsOneOfOption, stations, sides, lifecycles, conditions, kinds, WinchLiterals,
}

module _ {N : Type 0} where
  -- The parameters are those that the operation declares, and the query's are of their types.
  abbrev pub HasParameters : Operation → List (String × String) → Fields N → Type 0
  HasParameters op path query =
      (map (λ p. p.0) path ≡ map (λ m. m.name) op.path)
      × (has_required op.query query ≡ true)
      × (fields_conform op.query query ≡ true)

  -- The call is one of the template: it names the template, or the address is what the template stands
  -- for under some values.
  abbrev pub IsCallOf : String → Operation → Address N → Type 0
  IsCallOf template op (typed t path query) = (t ≡ template) × HasParameters op path query
  IsCallOf template op (raw url) =
      (path : List (String × String)) × (query : Fields N) × HasParameters op path query
      × (url ≡ filled api_base template path query)

  -- There is a body exactly where the operation asks for one, and it is of the type asked for.
  abbrev pub HasBody : Option SchemaType → Option (Json N) → Type 0
  HasBody none none = Unit {0}
  HasBody (some t) (some v) = conforms t v ≡ true
  HasBody _ _ = ⊥

  -- The schema declares the operation of the call.
  abbrev pub IsDeclared : HttpCall N → Type 0
  IsDeclared c =
      (template : String) × (op : Operation) × (operation_at template c.method ≡ some op)
      × IsCallOf template op c.address
      × HasBody op.request_body c.body

  -- The texts of the body that the schema enumerates are among those listed.
  abbrev pub TypedLiterals : TypedRequest N → Type 0
  TypedLiterals (TypedRequest.register_line v b) =
      IsOneOf lifecycles b.lifecycle_status × IsOneOfOption sides b.current_side
  TypedLiterals (TypedRequest.save_layout v b) =
      All WinchLiterals b.winches × All (λ s. IsOneOf stations s.station) b.storage
  TypedLiterals _ = Unit {0}

abbrev pub FileLiterals : FileRequest → Type 0
FileLiterals (FileRequest.upload_photo id b) =
    IsOneOfOption sides b.side × IsOneOfOption conditions b.condition_at_capture
FileLiterals (FileRequest.upload_certificate id b) = IsOneOfOption kinds b.kind
FileLiterals _ = Unit {0}

abbrev pub InspectionLiterals : InspectionRequest → Type 0
InspectionLiterals (InspectionRequest.log_inspection id b) = IsOneOf conditions b.condition_status
InspectionLiterals _ = Unit {0}

-- A denied level is not put.
abbrev pub AccessLiterals : AccessRequest → Type 0
AccessLiterals (AccessRequest.put_grant g level) = level ≢ denied
AccessLiterals _ = Unit {0}

abbrev pub HasLiterals : {N : Type 0} → Request N → Type 0
HasLiterals (typed_request r) = TypedLiterals r
HasLiterals (file_request r) = FileLiterals r
HasLiterals (inspection_request r) = InspectionLiterals r
HasLiterals (access_request r) = AccessLiterals r
HasLiterals _ = Unit {0}
