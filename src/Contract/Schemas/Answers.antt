-- ===== src/Contract/Schemas/Answers.antt =====
-- web/src/api/schema.ts, `components["schemas"]`: errors, files, inspections, the overview, the session and the access groups.
use mooring_line_management.Base.{[], ◌∷◌}
use mooring_line_management.Contract.Shape.{
  Schema, text, number, boolean, unknown, named, array_or_null, required, optional,
}

abbrev pub access_group : Schema
access_group = record {
  name = "AccessGroup";
  members = required "groupId" text ∷ required "level" text ∷ required "name" text ∷ [];
}

abbrev pub error_detail : Schema
error_detail = record {
  name = "ErrorDetail";
  members = optional "location" text ∷ optional "message" text ∷ optional "value" unknown ∷ [];
}

abbrev pub error_model : Schema
error_model = record {
  name = "ErrorModel";
  members =
      optional "$schema" text
      ∷ optional "detail" text
      ∷ optional "errors" (array_or_null (named "ErrorDetail"))
      ∷ optional "instance" text
      ∷ optional "status" number
      ∷ optional "title" text
      ∷ required "type" text
      ∷ [];
}

abbrev pub file_doc : Schema
file_doc = record {
  name = "FileDoc";
  members =
      optional "$schema" text
      ∷ optional "content_type" text
      ∷ required "created_at" text
      ∷ required "file_name" text
      ∷ required "file_ref" text
      ∷ required "id" text
      ∷ required "kind" text
      ∷ optional "line_id" text
      ∷ optional "product_id" text
      ∷ required "size_bytes" number
      ∷ optional "url" text
      ∷ optional "vessel_id" text
      ∷ [];
}

abbrev pub file_photo : Schema
file_photo = record {
  name = "FilePhoto";
  members =
      optional "$schema" text
      ∷ optional "condition_at_capture" text
      ∷ required "created_at" text
      ∷ required "file_ref" text
      ∷ required "id" text
      ∷ optional "inspection_id" text
      ∷ required "line_id" text
      ∷ optional "side" text
      ∷ optional "taken_at" text
      ∷ optional "url" text
      ∷ [];
}

abbrev pub group_access : Schema
group_access = record {
  name = "GroupAccess";
  members =
      optional "$schema" text
      ∷ required "groupId" text
      ∷ required "level" text
      ∷ required "updatedAt" text
      ∷ required "updatedBy" text
      ∷ [];
}

abbrev pub health_output_body : Schema
health_output_body = record {
  name = "HealthOutputBody";
  members =
      optional "$schema" text
      ∷ required "db" text
      ∷ required "scope" text
      ∷ required "status" text
      ∷ optional "vessel_id" text
      ∷ [];
}

abbrev pub insp_ingest_response : Schema
insp_ingest_response = record {
  name = "Insp-ingestResponse";
  members =
      optional "$schema" text
      ∷ required "created" boolean
      ∷ required "inspection" (named "Inspection")
      ∷ [];
}

abbrev pub insp_logbook_entry : Schema
insp_logbook_entry = record {
  name = "InspLogbookEntry";
  members =
      required "condition_status" text
      ∷ required "created_at" text
      ∷ optional "external_id" text
      ∷ required "id" text
      ∷ required "inspected_at" text
      ∷ optional "inspected_by" text
      ∷ required "line_id" text
      ∷ required "line_name" text
      ∷ optional "notes" text
      ∷ required "serial_number" text
      ∷ required "source" text
      ∷ required "vessel_id" text
      ∷ [];
}

abbrev pub inspection : Schema
inspection = record {
  name = "Inspection";
  members =
      optional "$schema" text
      ∷ required "condition_status" text
      ∷ required "created_at" text
      ∷ optional "external_id" text
      ∷ required "id" text
      ∷ required "inspected_at" text
      ∷ optional "inspected_by" text
      ∷ required "line_id" text
      ∷ optional "notes" text
      ∷ required "source" text
      ∷ required "vessel_id" text
      ∷ [];
}

abbrev pub list_access_groups_response : Schema
list_access_groups_response = record {
  name = "List-access-groupsResponse";
  members = optional "$schema" text ∷ required "groups" (array_or_null (named "AccessGroup")) ∷ [];
}

abbrev pub over_attention_item : Schema
over_attention_item = record {
  name = "OverAttentionItem";
  members =
      required "condition_status" text
      ∷ required "id" text
      ∷ required "location_label" text
      ∷ required "name" text
      ∷ required "serial_number" text
      ∷ [];
}

abbrev pub over_recent_inspection : Schema
over_recent_inspection = record {
  name = "OverRecentInspection";
  members =
      required "condition_status" text
      ∷ required "inspected_at" text
      ∷ required "line_name" text
      ∷ [];
}

abbrev pub over_trend_point : Schema
over_trend_point = record {
  name = "OverTrendPoint";
  members = required "action" number ∷ required "inspections" number ∷ required "month" text ∷ [];
}

abbrev pub overview : Schema
overview = record {
  name = "Overview";
  members =
      optional "$schema" text
      ∷ required "action" number
      ∷ required "active_lines" number
      ∷ required "attention" (array_or_null (named "OverAttentionItem"))
      ∷ required "avg_install_age_days" number
      ∷ required "good" number
      ∷ required "inspections_due" number
      ∷ required "monitor" number
      ∷ required "needing_attention" number
      ∷ required "recent_inspections" (array_or_null (named "OverRecentInspection"))
      ∷ required "spares" number
      ∷ required "trend" (array_or_null (named "OverTrendPoint"))
      ∷ [];
}

abbrev pub permissions : Schema
permissions = record {
  name = "Permissions";
  members =
      required "admin" boolean
      ∷ required "canRead" boolean
      ∷ required "canWrite" boolean
      ∷ required "level" text
      ∷ [];
}

abbrev pub session_output_body : Schema
session_output_body = record {
  name = "SessionOutputBody";
  members =
      optional "$schema" text
      ∷ required "authenticated" boolean
      ∷ optional "groups" (array_or_null text)
      ∷ optional "permissions" (named "Permissions")
      ∷ optional "user" (named "SessionUser")
      ∷ [];
}

abbrev pub session_user : Schema
session_user = record {
  name = "SessionUser";
  members =
      required "email" text
      ∷ required "id" text
      ∷ required "name" text
      ∷ required "positionId" text
      ∷ required "positionName" text
      ∷ required "sub" text
      ∷ [];
}
