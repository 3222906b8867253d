-- ===== src/Contract/Paths.antt =====
-- web/src/api/schema.ts, `paths`. No path declares `options`, `head`, `patch` or `trace`, and none has
-- parameters of its own beside its operations'.
use mooring_line_management.Base.{List, [], ◌∷◌}
use mooring_line_management.Contract.Shape.{PathItem, get, put, post, delete}
use mooring_line_management.Contract.Operations.Access.{
  put_access_grant, delete_access_grant, list_access_groups, auth_session, health, insp_ingest,
  insp_logbook, insp_report,
}
use mooring_line_management.Contract.Operations.Lines.{
  get_line, file_add_cert, add_component, file_list, insp_list, insp_log, move_line,
  file_list_photos, file_add_photo, turn_line, file_del_photo,
}
use mooring_line_management.Contract.Operations.Fleet.{
  list_line_types, create_line_type, list_makers, create_maker, list_products, create_product,
  get_product, list_vessels, create_vessel, get_vessel, get_layout, save_layout, list_lines,
  register_line, over_get,
}

abbrev pub access_grants_group_path : PathItem
access_grants_group_path = record {
  template = "/access/grants/{groupId}";
  methods = (put, put_access_grant) ∷ (delete, delete_access_grant) ∷ [];
}

abbrev pub access_groups_path : PathItem
access_groups_path = record {
  template = "/access/groups";
  methods = (get, list_access_groups) ∷ [];
}

abbrev pub auth_session_path : PathItem
auth_session_path = record { template = "/auth/session"; methods = (get, auth_session) ∷ [] }

abbrev pub health_path : PathItem
health_path = record { template = "/health"; methods = (get, health) ∷ [] }

abbrev pub inspections_ingest_path : PathItem
inspections_ingest_path = record {
  template = "/inspections/ingest";
  methods = (post, insp_ingest) ∷ [];
}

abbrev pub inspections_logbook_path : PathItem
inspections_logbook_path = record {
  template = "/inspections/logbook";
  methods = (get, insp_logbook) ∷ [];
}

abbrev pub line_types_path : PathItem
line_types_path = record {
  template = "/line-types";
  methods = (get, list_line_types) ∷ (post, create_line_type) ∷ [];
}

abbrev pub lines_one_path : PathItem
lines_one_path = record { template = "/lines/{id}"; methods = (get, get_line) ∷ [] }

abbrev pub lines_one_certificate_path : PathItem
lines_one_certificate_path = record {
  template = "/lines/{id}/certificate";
  methods = (post, file_add_cert) ∷ [];
}

abbrev pub lines_one_components_path : PathItem
lines_one_components_path = record {
  template = "/lines/{id}/components";
  methods = (post, add_component) ∷ [];
}

abbrev pub lines_one_files_path : PathItem
lines_one_files_path = record { template = "/lines/{id}/files"; methods = (get, file_list) ∷ [] }

abbrev pub lines_one_inspections_path : PathItem
lines_one_inspections_path = record {
  template = "/lines/{id}/inspections";
  methods = (get, insp_list) ∷ (post, insp_log) ∷ [];
}

abbrev pub lines_one_move_path : PathItem
lines_one_move_path = record { template = "/lines/{id}/move"; methods = (post, move_line) ∷ [] }

abbrev pub lines_one_photos_path : PathItem
lines_one_photos_path = record {
  template = "/lines/{id}/photos";
  methods = (get, file_list_photos) ∷ (post, file_add_photo) ∷ [];
}

abbrev pub lines_one_turn_path : PathItem
lines_one_turn_path = record { template = "/lines/{id}/turn"; methods = (post, turn_line) ∷ [] }

abbrev pub makers_path : PathItem
makers_path = record {
  template = "/makers";
  methods = (get, list_makers) ∷ (post, create_maker) ∷ [];
}

abbrev pub photos_one_path : PathItem
photos_one_path = record { template = "/photos/{id}"; methods = (delete, file_del_photo) ∷ [] }

abbrev pub products_path : PathItem
products_path = record {
  template = "/products";
  methods = (get, list_products) ∷ (post, create_product) ∷ [];
}

abbrev pub products_one_path : PathItem
products_one_path = record { template = "/products/{id}"; methods = (get, get_product) ∷ [] }

abbrev pub reports_condition_path : PathItem
reports_condition_path = record {
  template = "/reports/condition";
  methods = (get, insp_report) ∷ [];
}

abbrev pub vessels_path : PathItem
vessels_path = record {
  template = "/vessels";
  methods = (get, list_vessels) ∷ (post, create_vessel) ∷ [];
}

abbrev pub vessels_one_path : PathItem
vessels_one_path = record { template = "/vessels/{vessel_id}"; methods = (get, get_vessel) ∷ [] }

abbrev pub vessels_one_layout_path : PathItem
vessels_one_layout_path = record {
  template = "/vessels/{vessel_id}/layout";
  methods = (get, get_layout) ∷ (put, save_layout) ∷ [];
}

abbrev pub vessels_one_lines_path : PathItem
vessels_one_lines_path = record {
  template = "/vessels/{vessel_id}/lines";
  methods = (get, list_lines) ∷ (post, register_line) ∷ [];
}

abbrev pub vessels_one_overview_path : PathItem
vessels_one_overview_path = record {
  template = "/vessels/{vessel_id}/overview";
  methods = (get, over_get) ∷ [];
}

abbrev pub paths : List PathItem
paths =
    access_grants_group_path ∷ access_groups_path ∷ auth_session_path ∷ health_path
    ∷ inspections_ingest_path ∷ inspections_logbook_path ∷ line_types_path ∷ lines_one_path
    ∷ lines_one_certificate_path ∷ lines_one_components_path ∷ lines_one_files_path
    ∷ lines_one_inspections_path ∷ lines_one_move_path ∷ lines_one_photos_path ∷ lines_one_turn_path
    ∷ makers_path ∷ photos_one_path ∷ products_path ∷ products_one_path ∷ reports_condition_path
    ∷ vessels_path ∷ vessels_one_path ∷ vessels_one_layout_path ∷ vessels_one_lines_path
    ∷ vessels_one_overview_path ∷ []
