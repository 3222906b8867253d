-- ===== src/Contract/Declared.antt =====
-- Every request of the client is an operation of the schema.
pub mod Typed
pub mod Fetched
use Prim.Native.String
use mooring_line_management.Base.{
  append_three, append_four, ◌≡◌, ◌≢◌, refl, ap, ◌∙◌, String, true, false, Option, [], ◌∷◌, concat,
}
use mooring_line_management.Api.Keys.{
  LineFilters, Condition, good, monitor, action, Placement, installed, spare,
}
use mooring_line_management.Contract.Operations.Access as Access
use mooring_line_management.Contract.Operations.Lines as Lines
use mooring_line_management.Contract.Operations.Fleet as Fleet
use mooring_line_management.Contract.Conforms.{string, end, field, conforms, fields_conform}
use mooring_line_management.Contract.Templates.{filled, pieces, operation_at}
use mooring_line_management.Contract.Requests.{
  Report, csv, pdf, report_text, TypedRequest, FileRequest, InspectionRequest, CatalogueRequest,
  AccessRequest, SessionRequest, Request, typed_request, file_request, inspection_request,
  report_link, catalogue_request, access_request, session_request, turn_request, overview_request,
  signs_in_or_out,
}
use mooring_line_management.Contract.HttpCalls.{
  api_base, condition_text, placement_text, lines_query, typed_call, file_call, inspection_call,
  report_call, catalogue_call, access_call, session_call, turn_call, overview_call, call,
}
use mooring_line_management.Contract.Sending.{
  IsOneOf, conditions, fields_conform-optional_field, layout_json-conforms,
}
use mooring_line_management.Contract.Forms.{
  move_json-conforms, turn_json-conforms, grant_json-conforms, maker_json-conforms,
  line_type_json-conforms, photo_json-conforms, certificate_json-conforms, inspection_json-conforms,
  line_json-conforms, product_json-conforms,
}
use mooring_line_management.Contract.Calls.{
  IsDeclared, TypedLiterals, FileLiterals, InspectionLiterals, AccessLiterals, HasLiterals,
}
use mooring_line_management.Contract.Declared.Typed.{typed_call-IsDeclared}
use mooring_line_management.Contract.Declared.Fetched.{
  file_call-IsDeclared, inspection_call-IsDeclared, report_call-IsDeclared, access_call-IsDeclared,
  session_call-IsDeclared, turn_call-IsDeclared, overview_call-IsDeclared,
  catalogue_call-IsDeclared,
}

module _ {N : Type 0} where
  pub request-IsDeclared :
      (encode : String → String) (r : Request N)
      → signs_in_or_out r ≡ false
      → HasLiterals r
      → IsDeclared (call encode r)
  unfolding call
  request-IsDeclared encode (typed_request r) n h = typed_call-IsDeclared r h
  request-IsDeclared encode (file_request r) n h = file_call-IsDeclared N r h
  request-IsDeclared encode (inspection_request r) n h = inspection_call-IsDeclared N r h
  request-IsDeclared encode (report_link v r) n h = report_call-IsDeclared N v r
  request-IsDeclared encode (catalogue_request r) n h = catalogue_call-IsDeclared r
  request-IsDeclared encode (access_request r) n h = access_call-IsDeclared N encode r h
  request-IsDeclared encode (session_request r) n h = session_call-IsDeclared N encode r n
  request-IsDeclared encode (turn_request id remark) n h = turn_call-IsDeclared N id remark
  request-IsDeclared encode (overview_request v) n h = overview_call-IsDeclared N v
