-- ===== src/Contract/HttpCalls.antt =====
-- What each request of the client calls: its method, its address and its body.
use mooring_line_management.Base.{String, Option, none, some, List, [], ◌∷◌, concat}
use mooring_line_management.Int.{pos}
use mooring_line_management.Api.Keys.{
  LineFilters, Condition, good, monitor, action, Placement, installed, spare,
}
use mooring_line_management.Auth.Provider.{login}
use mooring_line_management.Contract.Shape.{Method, get, put, post, delete}
use mooring_line_management.Contract.Conforms.{Json, whole, string, Fields, end, field}
use mooring_line_management.Contract.Bodies.{
  text_field, optional_field, layout_json, line_json, move_json, grant_json, turn_json, name_json,
  product_json, photo_json, certificate_json, inspection_json,
}
use mooring_line_management.Contract.Requests.{
  TypedRequest, FileRequest, InspectionRequest, Report, CatalogueRequest, AccessRequest,
  SessionRequest, Request, typed_request, file_request, inspection_request, report_link,
  catalogue_request, access_request, session_request, turn_request, overview_request, report_text,
  get_health, list_vessels, list_products, list_line_types, get_layout, list_lines, get_line,
  register_line, move_line, save_layout, list_photos, list_documents, upload_photo, delete_photo,
  upload_certificate, list_inspections, log_inspection, get_logbook, list_makers, list_types,
  list_catalogue, create_maker, create_line_type, create_product, list_groups, put_grant,
  delete_grant, get_session, logout, log_in,
}

abbrev pub api_base : String
api_base = "/api"

-- What a call names: a template with its parameters, or a whole address.
pub data Address (N : Type 0) : Type 0 where
  typed : (template : String) → (path : List (String × String)) → (query : Fields N) → Address N
  raw : (url : String) → Address N

pub record HttpCall (N : Type 0) : Type 0 where
  pub method : Method
  pub address : Address N
  pub body : Option (Json N)

abbrev pub address_of : {N : Type 0} → List String → Address N
address_of texts = raw (concat (api_base ∷ texts))

abbrev pub condition_text : Condition → String
condition_text good = "Good"
condition_text monitor = "Monitor"
condition_text action = "Action"

abbrev pub placement_text : Placement → String
placement_text installed = "installed"
placement_text spare = "spare"

module _ {N : Type 0} where
  -- `{ ...filters, limit: 500 }`
  unfoldable pub lines_query : LineFilters → Fields N
  lines_query f = text_field "q" f.q (
      optional_field "condition" (λ c. string (condition_text c)) f.condition
        (text_field "line_type_id" f.line_type_id (
          optional_field "placement" (λ p. string (placement_text p)) f.placement
            (field "limit" (whole (pos 500)) end))))

  unfoldable pub typed_call : TypedRequest N → HttpCall N
  unfolding lines_query
  typed_call get_health = record { method = get; address = typed "/health" [] end; body = none }
  typed_call list_vessels = record { method = get; address = typed "/vessels" [] end; body = none }
  typed_call list_products = record {
    method = get;
    address = typed "/products" [] end;
    body = none;
  }
  typed_call list_line_types = record {
    method = get;
    address = typed "/line-types" [] end;
    body = none;
  }
  typed_call (get_layout v) = record {
    method = get;
    address = typed "/vessels/{vessel_id}/layout" (("vessel_id", v) ∷ []) end;
    body = none;
  }
  typed_call (list_lines v f) = record {
    method = get;
    address = typed "/vessels/{vessel_id}/lines" (("vessel_id", v) ∷ []) (lines_query f);
    body = none;
  }
  typed_call (get_line id) = record {
    method = get;
    address = typed "/lines/{id}" (("id", id) ∷ []) end;
    body = none;
  }
  typed_call (register_line v b) = record {
    method = post;
    address = typed "/vessels/{vessel_id}/lines" (("vessel_id", v) ∷ []) end;
    body = some (line_json b);
  }
  typed_call (move_line id b) = record {
    method = post;
    address = typed "/lines/{id}/move" (("id", id) ∷ []) end;
    body = some (move_json b);
  }
  typed_call (save_layout v b) = record {
    method = put;
    address = typed "/vessels/{vessel_id}/layout" (("vessel_id", v) ∷ []) end;
    body = some (layout_json b);
  }

  unfoldable pub file_call : FileRequest → HttpCall N
  file_call (list_photos id) = record {
    method = get;
    address = address_of ("/lines/" ∷ id ∷ "/photos" ∷ []);
    body = none;
  }
  file_call (list_documents id) = record {
    method = get;
    address = address_of ("/lines/" ∷ id ∷ "/files" ∷ []);
    body = none;
  }
  file_call (upload_photo id b) = record {
    method = post;
    address = address_of ("/lines/" ∷ id ∷ "/photos" ∷ []);
    body = some (photo_json b);
  }
  file_call (delete_photo id) = record {
    method = delete;
    address = address_of ("/photos/" ∷ id ∷ []);
    body = none;
  }
  file_call (upload_certificate id b) = record {
    method = post;
    address = address_of ("/lines/" ∷ id ∷ "/certificate" ∷ []);
    body = some (certificate_json b);
  }

  unfoldable pub inspection_call : InspectionRequest → HttpCall N
  inspection_call (list_inspections id) = record {
    method = get;
    address = address_of ("/lines/" ∷ id ∷ "/inspections" ∷ []);
    body = none;
  }
  inspection_call (log_inspection id b) = record {
    method = post;
    address = address_of ("/lines/" ∷ id ∷ "/inspections" ∷ []);
    body = some (inspection_json b);
  }
  inspection_call (get_logbook v) = record {
    method = get;
    address = address_of ("/inspections/logbook?vessel_id=" ∷ v ∷ []);
    body = none;
  }

  unfoldable pub report_call : (vessel_id : String) → Report → HttpCall N
  report_call v r = record {
    method = get;
    address = address_of ("/reports/condition?vessel_id=" ∷ v ∷ "&format=" ∷ report_text r ∷ []);
    body = none;
  }

  unfoldable pub catalogue_call : CatalogueRequest N → HttpCall N
  catalogue_call list_makers = record {
    method = get;
    address = address_of ("/makers" ∷ []);
    body = none;
  }
  catalogue_call list_types = record {
    method = get;
    address = address_of ("/line-types" ∷ []);
    body = none;
  }
  catalogue_call list_catalogue = record {
    method = get;
    address = address_of ("/products" ∷ []);
    body = none;
  }
  catalogue_call (create_maker b) = record {
    method = post;
    address = address_of ("/makers" ∷ []);
    body = some (name_json "notes" b);
  }
  catalogue_call (create_line_type b) = record {
    method = post;
    address = address_of ("/line-types" ∷ []);
    body = some (name_json "description" b);
  }
  catalogue_call (create_product b) = record {
    method = post;
    address = address_of ("/products" ∷ []);
    body = some (product_json b);
  }

  -- `encode` is `encodeURIComponent`.
  unfoldable pub access_call : (encode : String → String) → AccessRequest → HttpCall N
  access_call encode list_groups = record {
    method = get;
    address = address_of ("/access/groups" ∷ []);
    body = none;
  }
  access_call encode (put_grant g level) = record {
    method = put;
    address = address_of ("/access/grants/" ∷ encode g ∷ []);
    body = some (grant_json level);
  }
  access_call encode (delete_grant g) = record {
    method = delete;
    address = address_of ("/access/grants/" ∷ encode g ∷ []);
    body = none;
  }

  unfoldable pub session_call : (encode : String → String) → SessionRequest → HttpCall N
  unfolding login
  session_call encode get_session = record {
    method = get;
    address = address_of ("/auth/session" ∷ []);
    body = none;
  }
  session_call encode logout = record {
    method = post;
    address = address_of ("/auth/logout" ∷ []);
    body = none;
  }
  session_call encode (log_in here return_to) = record {
    method = get;
    address = raw (login encode here return_to);
    body = none;
  }

  unfoldable pub turn_call : (line_id : String) → (remark : Option String) → HttpCall N
  turn_call id remark = record {
    method = post;
    address = address_of ("/lines/" ∷ id ∷ "/turn" ∷ []);
    body = some (turn_json remark);
  }

  unfoldable pub overview_call : (vessel_id : String) → HttpCall N
  overview_call v = record {
    method = get;
    address = address_of ("/vessels/" ∷ v ∷ "/overview" ∷ []);
    body = none;
  }

  unfoldable pub call : (encode : String → String) → Request N → HttpCall N
  unfolding typed_call file_call inspection_call report_call catalogue_call access_call session_call
      turn_call overview_call
  call encode (typed_request r) = typed_call r
  call encode (file_request r) = file_call r
  call encode (inspection_request r) = inspection_call r
  call encode (report_link v r) = report_call v r
  call encode (catalogue_request r) = catalogue_call r
  call encode (access_request r) = access_call encode r
  call encode (session_request r) = session_call encode r
  call encode (turn_request id remark) = turn_call id remark
  call encode (overview_request v) = overview_call v
