-- ===== src/Contract/Requests.antt =====
-- The requests of the client. web/src/api/hooks.ts calls the typed client, which fills a template of the
-- schema; the features and the session call `fetch` with an address of their own.
use mooring_line_management.Base.{String, Option, Bool, true, false}
use mooring_line_management.Schema.{LineBody, LayoutBody}
use mooring_line_management.Api.Hooks.{MoveBody}
use mooring_line_management.Api.Keys.{LineFilters}
use mooring_line_management.Auth.Context.{AccessLevel}
use mooring_line_management.Catalogue.{NameBody, ProductBody}
use mooring_line_management.Files.{PhotoBody, CertificateBody, InspectionBody}

-- web/src/api/hooks.ts
pub data TypedRequest (N : Type 0) : Type 0 where
  get_health list_vessels list_products list_line_types : TypedRequest N
  get_layout : (vessel_id : String) → TypedRequest N
  list_lines : (vessel_id : String) → LineFilters → TypedRequest N
  get_line : (id : String) → TypedRequest N
  register_line : (vessel_id : String) → LineBody N → TypedRequest N
  move_line : (line_id : String) → MoveBody → TypedRequest N
  save_layout : (vessel_id : String) → LayoutBody N → TypedRequest N

-- web/src/features/files/api.ts
pub data FileRequest : Type 0 where
  list_photos list_documents : (line_id : String) → FileRequest
  upload_photo : (line_id : String) → PhotoBody → FileRequest
  delete_photo : (photo_id : String) → FileRequest
  upload_certificate : (line_id : String) → CertificateBody → FileRequest

-- web/src/features/inspections/api.ts
pub data InspectionRequest : Type 0 where
  list_inspections : (line_id : String) → InspectionRequest
  log_inspection : (line_id : String) → InspectionBody → InspectionRequest
  get_logbook : (vessel_id : String) → InspectionRequest

-- The links of web/src/features/inspections/InspectionsPage.tsx.
pub data Report : Type 0 where
  csv pdf : Report

abbrev pub report_text : Report → String
report_text csv = "csv"
report_text pdf = "pdf"

-- web/src/features/catalogue/api.ts
pub data CatalogueRequest (N : Type 0) : Type 0 where
  list_makers list_types list_catalogue : CatalogueRequest N
  create_maker create_line_type : NameBody → CatalogueRequest N
  create_product : ProductBody N → CatalogueRequest N

-- web/src/features/permissions/PermissionsPage.tsx
pub data AccessRequest : Type 0 where
  list_groups : AccessRequest
  put_grant : (group_id : String) → AccessLevel → AccessRequest
  delete_grant : (group_id : String) → AccessRequest

-- web/src/app/auth/AuthProvider.tsx. `login` navigates, from the page `here`.
pub data SessionRequest : Type 0 where
  get_session logout : SessionRequest
  log_in : (here : String) → (return_to : Option String) → SessionRequest

pub data Request (N : Type 0) : Type 0 where
  typed_request : TypedRequest N → Request N
  file_request : FileRequest → Request N
  inspection_request : InspectionRequest → Request N
  report_link : (vessel_id : String) → Report → Request N
  catalogue_request : CatalogueRequest N → Request N
  access_request : AccessRequest → Request N
  session_request : SessionRequest → Request N
  -- web/src/features/turning/useTurnLine.ts
  turn_request : (line_id : String) → (remark : Option String) → Request N
  -- web/src/features/dashboard/api.ts
  overview_request : (vessel_id : String) → Request N

-- The requests that begin and end a session; the schema has neither.
abbrev pub signs_in_or_out : {N : Type 0} → Request N → Bool
signs_in_or_out (session_request logout) = true
signs_in_or_out (session_request (log_in here return_to)) = true
signs_in_or_out _ = false
