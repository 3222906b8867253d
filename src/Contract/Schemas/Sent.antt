-- ===== src/Contract/Schemas/Sent.antt =====
-- web/src/api/schema.ts, `components["schemas"]`: what the requests send.
use mooring_line_management.Base.{[], ◌∷◌}
use mooring_line_management.Int.{pos, negsuc}
use mooring_line_management.Contract.Shape.{
  Schema, text, number, boolean, one_of, one_of_numbers, named, array_or_null, required, optional,
}

abbrev pub create_line_type_request : Schema
create_line_type_request = record {
  name = "Create-line-typeRequest";
  members = optional "$schema" text ∷ optional "description" text ∷ required "name" text ∷ [];
}

abbrev pub create_maker_request : Schema
create_maker_request = record {
  name = "Create-makerRequest";
  members = optional "$schema" text ∷ required "name" text ∷ optional "notes" text ∷ [];
}

abbrev pub create_product_request : Schema
create_product_request = record {
  name = "Create-productRequest";
  members =
      optional "$schema" text
      ∷ required "can_be_turned" boolean
      ∷ optional "construction_type" text
      ∷ optional "default_length" number
      ∷ required "line_type_id" text
      ∷ required "maker_id" text
      ∷ optional "manufacturer_manual_ref" text
      ∷ optional "notes" text
      ∷ required "product_name" text
      ∷ [];
}

abbrev pub create_vessel_request : Schema
create_vessel_request = record {
  name = "Create-vesselRequest";
  members = optional "$schema" text ∷ optional "imo" text ∷ required "name" text ∷ [];
}

abbrev pub file_add_cert_request : Schema
file_add_cert_request = record {
  name = "File-add-certRequest";
  members =
      optional "$schema" text
      ∷ optional "content_type" text
      ∷ required "file_base64" text
      ∷ required "file_name" text
      ∷ optional "kind" (one_of ("certificate" ∷ "manual" ∷ "guide" ∷ []))
      ∷ [];
}

abbrev pub file_add_photo_request : Schema
file_add_photo_request = record {
  name = "File-add-photoRequest";
  members =
      optional "$schema" text
      ∷ optional "condition_at_capture" (one_of ("Good" ∷ "Monitor" ∷ "Action" ∷ []))
      ∷ optional "content_type" text
      ∷ required "file_base64" text
      ∷ optional "inspection_id" text
      ∷ optional "side" (one_of ("A" ∷ "B" ∷ "n/a" ∷ []))
      ∷ optional "taken_at" text
      ∷ [];
}

abbrev pub insp_ingest_body : Schema
insp_ingest_body = record {
  name = "InspIngestBody";
  members =
      optional "$schema" text
      ∷ required "condition_status" (one_of ("Good" ∷ "Monitor" ∷ "Action" ∷ []))
      ∷ optional "external_id" text
      ∷ optional "inspected_at" text
      ∷ optional "inspected_by" text
      ∷ optional "notes" text
      ∷ required "serial_number" text
      ∷ [];
}

abbrev pub insp_log_body : Schema
insp_log_body = record {
  name = "InspLogBody";
  members =
      optional "$schema" text
      ∷ required "condition_status" (one_of ("Good" ∷ "Monitor" ∷ "Action" ∷ []))
      ∷ optional "inspected_at" text
      ∷ optional "inspected_by" text
      ∷ optional "notes" text
      ∷ [];
}

abbrev pub line_body : Schema
line_body = record {
  name = "LineBody";
  members =
      optional "$schema" text
      ∷ optional "certificate_number" text
      ∷ optional "current_side" (one_of ("A" ∷ "B" ∷ "n/a" ∷ []))
      ∷ optional "installation_date" text
      ∷ optional "length" number
      ∷ optional "lifecycle_status" (one_of ("ordered" ∷ "active" ∷ "spare" ∷ "retired" ∷ []))
      ∷ optional "manufacture_date" text
      ∷ required "name" text
      ∷ required "product_id" text
      ∷ required "serial_number" text
      ∷ optional "tag_number" text
      ∷ [];
}

abbrev pub move_line_request : Schema
move_line_request = record {
  name = "Move-lineRequest";
  members =
      optional "$schema" text ∷ optional "to_drum_id" text ∷ optional "to_storage_id" text ∷ [];
}

abbrev pub put_access_grant_request : Schema
put_access_grant_request = record {
  name = "Put-access-grantRequest";
  members = optional "$schema" text ∷ required "level" (one_of ("view" ∷ "edit" ∷ [])) ∷ [];
}

abbrev pub save_layout_request : Schema
save_layout_request = record {
  name = "Save-layoutRequest";
  members =
      optional "$schema" text
      ∷ required "storage" (array_or_null (named "StorageBody"))
      ∷ required "winches" (array_or_null (named "WinchBody"))
      ∷ [];
}

abbrev pub storage_body : Schema
storage_body = record {
  name = "StorageBody";
  members =
      optional "id" text
      ∷ required "label" text
      ∷ required "station" (one_of ("fwd" ∷ "aft" ∷ []))
      ∷ required "x" number
      ∷ required "y" number
      ∷ [];
}

abbrev pub turn_body : Schema
turn_body = record {
  name = "TurnBody";
  members = optional "$schema" text ∷ optional "note" text ∷ [];
}

abbrev pub winch_body : Schema
winch_body = record {
  name = "WinchBody";
  members =
      optional "drive_type" (one_of ("electric" ∷ "hydraulic" ∷ []))
      ∷ required "drum_count" number
      ∷ optional "id" text
      ∷ required "label" text
      ∷ optional "label_auto" boolean
      ∷ required "orientation"
          (one_of_numbers (pos 0 ∷ pos 45 ∷ negsuc 44 ∷ pos 90 ∷ negsuc 89 ∷ []))
      ∷ required "station" (one_of ("fwd" ∷ "aft" ∷ []))
      ∷ required "x" number
      ∷ required "y" number
      ∷ [];
}
