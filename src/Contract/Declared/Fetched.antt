-- ===== src/Contract/Declared/Fetched.antt =====
-- The requests that the features and the session make by `fetch` are operations of the schema.
use Prim.Native.String
use mooring_line_management.Base.{
  append_three, append_four, ◌≡◌, ◌≢◌, refl, ap, ◌∙◌, String, true, false, Option, [], ◌∷◌, concat,
}
use mooring_line_management.Contract.Operations.Access as Access
use mooring_line_management.Contract.Operations.Lines as Lines
use mooring_line_management.Contract.Operations.Fleet as Fleet
use mooring_line_management.Contract.Conforms.{string, end, field, conforms, fields_conform}
use mooring_line_management.Contract.Templates.{filled, pieces, operation_at}
use mooring_line_management.Contract.Requests.{
  Report, csv, pdf, report_text, FileRequest, InspectionRequest, CatalogueRequest, AccessRequest,
  SessionRequest, session_request, signs_in_or_out,
}
use mooring_line_management.Contract.HttpCalls.{
  api_base, file_call, inspection_call, report_call, catalogue_call, access_call, session_call,
  turn_call, overview_call,
}
use mooring_line_management.Contract.Forms.{
  turn_json-conforms, grant_json-conforms, maker_json-conforms, line_type_json-conforms,
  photo_json-conforms, certificate_json-conforms, inspection_json-conforms, product_json-conforms,
}
use mooring_line_management.Contract.Calls.{
  IsDeclared, FileLiterals, InspectionLiterals, AccessLiterals,
}

true-ne-false : true ≢ false
true-ne-false h = cc

module _ (N : Type 0) where
  report_query :
      (v : String) (format : Report)
      → fields_conform {N = N}
          (Access.insp_report).query
          (field "vessel_id" (string v) (field "format" (string (report_text format)) end))
        ≡ true
  unfolding conforms
  report_query v csv = refl
  report_query v pdf = refl

  logbook_address :
      (v : String)
      → concat (api_base ∷ "/inspections/logbook?vessel_id=" ∷ v ∷ [])
        ≡ filled {N = N} api_base "/inspections/logbook" [] (field "vessel_id" (string v) end)
  unfolding filled pieces
  logbook_address v =
      ap (String.◌++◌ api_base) (append_four "/inspections/logbook" "?" "vessel_id" "=" _)

  report_address :
      (v format : String)
      → concat (api_base ∷ "/reports/condition?vessel_id=" ∷ v ∷ "&format=" ∷ format ∷ [])
        ≡ filled {N = N} api_base "/reports/condition" []
            (field "vessel_id" (string v) (field "format" (string format) end))
  unfolding filled pieces
  report_address v format = ap (String.◌++◌ api_base) (
      ap (λ s. String.◌++◌ "/reports/condition?vessel_id=" (String.◌++◌ v s))
        (append_three "&" "format" "=" _)
      ∙ append_four "/reports/condition" "?" "vessel_id" "=" _)

  pub file_call-IsDeclared : (r : FileRequest) → FileLiterals r → IsDeclared (file_call {N = N} r)
  unfolding operation_at file_call conforms filled pieces
  file_call-IsDeclared (FileRequest.list_photos id) h = (
    "/lines/{id}/photos",
    Lines.file_list_photos,
    refl,
    (("id", id) ∷ [], end, (refl, refl, refl), refl),
    tt,
  )
  file_call-IsDeclared (FileRequest.list_documents id) h = (
    "/lines/{id}/files",
    Lines.file_list,
    refl,
    (("id", id) ∷ [], end, (refl, refl, refl), refl),
    tt,
  )
  file_call-IsDeclared (FileRequest.upload_photo id b) h = (
    "/lines/{id}/photos",
    Lines.file_add_photo,
    refl,
    (("id", id) ∷ [], end, (refl, refl, refl), refl),
    photo_json-conforms N b h.0 h.1,
  )
  file_call-IsDeclared (FileRequest.delete_photo id) h = (
    "/photos/{id}",
    Lines.file_del_photo,
    refl,
    (("id", id) ∷ [], end, (refl, refl, refl), refl),
    tt,
  )
  file_call-IsDeclared (FileRequest.upload_certificate id b) h = (
    "/lines/{id}/certificate",
    Lines.file_add_cert,
    refl,
    (("id", id) ∷ [], end, (refl, refl, refl), refl),
    certificate_json-conforms N b h,
  )

  pub inspection_call-IsDeclared :
      (r : InspectionRequest) → InspectionLiterals r → IsDeclared (inspection_call {N = N} r)
  unfolding operation_at inspection_call conforms filled pieces
  inspection_call-IsDeclared (InspectionRequest.list_inspections id) h = (
    "/lines/{id}/inspections",
    Lines.insp_list,
    refl,
    (("id", id) ∷ [], end, (refl, refl, refl), refl),
    tt,
  )
  inspection_call-IsDeclared (InspectionRequest.log_inspection id b) h = (
    "/lines/{id}/inspections",
    Lines.insp_log,
    refl,
    (("id", id) ∷ [], end, (refl, refl, refl), refl),
    inspection_json-conforms N b h,
  )
  inspection_call-IsDeclared (InspectionRequest.get_logbook v) h = (
    "/inspections/logbook",
    Access.insp_logbook,
    refl,
    ([], field "vessel_id" (string v) end, (refl, refl, refl), logbook_address v),
    tt,
  )

  pub report_call-IsDeclared : (v : String) (r : Report) → IsDeclared (report_call {N = N} v r)
  unfolding operation_at report_call conforms filled pieces
  report_call-IsDeclared v r = (
    "/reports/condition",
    Access.insp_report,
    refl,
    (
      [],
      field "vessel_id" (string v) (field "format" (string (report_text r)) end),
      (refl, refl, report_query v r),
      report_address v (report_text r),
    ),
    tt,
  )

  pub access_call-IsDeclared :
      (encode : String → String) (r : AccessRequest)
      → AccessLiterals r
      → IsDeclared (access_call {N = N} encode r)
  unfolding operation_at access_call conforms filled pieces
  access_call-IsDeclared encode AccessRequest.list_groups h =
      ("/access/groups", Access.list_access_groups, refl, ([], end, (refl, refl, refl), refl), tt)
  access_call-IsDeclared encode (AccessRequest.put_grant g level) h = (
    "/access/grants/{groupId}",
    Access.put_access_grant,
    refl,
    (("groupId", encode g) ∷ [], end, (refl, refl, refl), refl),
    grant_json-conforms N level h,
  )
  access_call-IsDeclared encode (AccessRequest.delete_grant g) h = (
    "/access/grants/{groupId}",
    Access.delete_access_grant,
    refl,
    (("groupId", encode g) ∷ [], end, (refl, refl, refl), refl),
    tt,
  )

  pub session_call-IsDeclared :
      (encode : String → String) (r : SessionRequest)
      → signs_in_or_out {N = N} (session_request r) ≡ false
      → IsDeclared (session_call {N = N} encode r)
  unfolding operation_at session_call conforms filled pieces
  session_call-IsDeclared encode SessionRequest.get_session h =
      ("/auth/session", Access.auth_session, refl, ([], end, (refl, refl, refl), refl), tt)
  session_call-IsDeclared encode SessionRequest.logout h = absurd (true-ne-false h)
  session_call-IsDeclared encode (SessionRequest.log_in here return_to) h = absurd (true-ne-false h)

  pub turn_call-IsDeclared :
      (id : String) (remark : Option String) → IsDeclared (turn_call {N = N} id remark)
  unfolding operation_at turn_call conforms filled pieces
  turn_call-IsDeclared id remark = (
    "/lines/{id}/turn",
    Lines.turn_line,
    refl,
    (("id", id) ∷ [], end, (refl, refl, refl), refl),
    turn_json-conforms N remark,
  )

  pub overview_call-IsDeclared : (v : String) → IsDeclared (overview_call {N = N} v)
  unfolding operation_at overview_call conforms filled pieces
  overview_call-IsDeclared v = (
    "/vessels/{vessel_id}/overview",
    Fleet.over_get,
    refl,
    (("vessel_id", v) ∷ [], end, (refl, refl, refl), refl),
    tt,
  )

module _ {N : Type 0} where
  pub catalogue_call-IsDeclared : (r : CatalogueRequest N) → IsDeclared (catalogue_call r)
  unfolding operation_at catalogue_call conforms filled pieces
  catalogue_call-IsDeclared CatalogueRequest.list_makers =
      ("/makers", Fleet.list_makers, refl, ([], end, (refl, refl, refl), refl), tt)
  catalogue_call-IsDeclared CatalogueRequest.list_types =
      ("/line-types", Fleet.list_line_types, refl, ([], end, (refl, refl, refl), refl), tt)
  catalogue_call-IsDeclared CatalogueRequest.list_catalogue =
      ("/products", Fleet.list_products, refl, ([], end, (refl, refl, refl), refl), tt)
  catalogue_call-IsDeclared (CatalogueRequest.create_maker b) = (
    "/makers",
    Fleet.create_maker,
    refl,
    ([], end, (refl, refl, refl), refl),
    maker_json-conforms N b,
  )
  catalogue_call-IsDeclared (CatalogueRequest.create_line_type b) = (
    "/line-types",
    Fleet.create_line_type,
    refl,
    ([], end, (refl, refl, refl), refl),
    line_type_json-conforms N b,
  )
  catalogue_call-IsDeclared (CatalogueRequest.create_product b) = (
    "/products",
    Fleet.create_product,
    refl,
    ([], end, (refl, refl, refl), refl),
    product_json-conforms b,
  )
