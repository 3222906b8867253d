-- ===== src/Contract/Schemas.antt =====
-- web/src/api/schema.ts, `components["schemas"]`.
pub mod Sent
pub mod Fleet
pub mod Answers
use mooring_line_management.Base.{List, [], ◌∷◌}
use mooring_line_management.Contract.Shape.{Schema}
use mooring_line_management.Contract.Schemas.Sent.{
  create_line_type_request, create_maker_request, create_product_request, create_vessel_request,
  file_add_cert_request, file_add_photo_request, insp_ingest_body, insp_log_body, line_body,
  move_line_request, put_access_grant_request, save_layout_request, storage_body, turn_body,
  winch_body,
}
use mooring_line_management.Contract.Schemas.Fleet.{
  drum, layout, line, line_row, line_type, list_lines_response, maker, product, storage, vessel,
  winch,
}
use mooring_line_management.Contract.Schemas.Answers.{
  access_group, error_detail, error_model, file_doc, file_photo, group_access, health_output_body,
  insp_ingest_response, insp_logbook_entry, inspection, list_access_groups_response,
  over_attention_item, over_recent_inspection, over_trend_point, overview, permissions,
  session_output_body, session_user,
}

abbrev pub schemas : List Schema
schemas =
    access_group ∷ create_line_type_request ∷ create_maker_request ∷ create_product_request
    ∷ create_vessel_request ∷ drum ∷ error_detail ∷ error_model ∷ file_add_cert_request
    ∷ file_add_photo_request ∷ file_doc ∷ file_photo ∷ group_access ∷ health_output_body
    ∷ insp_ingest_response ∷ insp_ingest_body ∷ insp_log_body ∷ insp_logbook_entry ∷ inspection
    ∷ layout ∷ line ∷ line_body ∷ line_row ∷ line_type ∷ list_access_groups_response
    ∷ list_lines_response ∷ maker ∷ move_line_request ∷ over_attention_item ∷ over_recent_inspection
    ∷ over_trend_point ∷ overview ∷ permissions ∷ product ∷ put_access_grant_request
    ∷ save_layout_request ∷ session_output_body ∷ session_user ∷ storage ∷ storage_body ∷ turn_body
    ∷ vessel ∷ winch ∷ winch_body ∷ []
