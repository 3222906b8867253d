-- ===== src/Contract/Schemas/Fleet.antt =====
-- web/src/api/schema.ts, `components["schemas"]`: the vessels, their lines and the catalogue.
use mooring_line_management.Base.{[], ◌∷◌}
use mooring_line_management.Contract.Shape.{
  Schema, text, number, boolean, named, array_or_null, required, optional,
}

abbrev pub drum : Schema
drum = record {
  name = "Drum";
  members = required "id" text ∷ required "idx" number ∷ required "line_count" number ∷ [];
}

abbrev pub layout : Schema
layout = record {
  name = "Layout";
  members =
      optional "$schema" text
      ∷ required "storage" (array_or_null (named "Storage"))
      ∷ required "vessel_id" text
      ∷ required "winches" (array_or_null (named "Winch"))
      ∷ [];
}

abbrev pub line : Schema
line = record {
  name = "Line";
  members =
      optional "$schema" text
      ∷ required "build_age_days" number
      ∷ required "can_be_turned" boolean
      ∷ optional "certificate_number" text
      ∷ optional "certificate_ref" text
      ∷ required "components" (array_or_null (named "Line"))
      ∷ optional "construction_type" text
      ∷ optional "current_condition_status" text
      ∷ optional "current_drum_id" text
      ∷ optional "current_side" text
      ∷ optional "current_storage_id" text
      ∷ required "id" text
      ∷ required "install_age_days" number
      ∷ optional "installation_date" text
      ∷ required "installed" boolean
      ∷ optional "length" number
      ∷ required "lifecycle_status" text
      ∷ required "line_type_name" text
      ∷ required "location_label" text
      ∷ required "maker_name" text
      ∷ optional "manufacture_date" text
      ∷ required "name" text
      ∷ optional "next_inspection_due" text
      ∷ optional "parent_line_id" text
      ∷ required "product_id" text
      ∷ required "product_name" text
      ∷ required "serial_number" text
      ∷ required "side_a_age_days" number
      ∷ optional "side_a_change_date" text
      ∷ optional "side_a_condition" text
      ∷ required "side_b_age_days" number
      ∷ optional "side_b_change_date" text
      ∷ optional "side_b_condition" text
      ∷ optional "tag_number" text
      ∷ required "turn_due" boolean
      ∷ required "vessel_id" text
      ∷ [];
}

abbrev pub line_row : Schema
line_row = record {
  name = "LineRow";
  members =
      required "build_age_days" number
      ∷ optional "certificate_number" text
      ∷ optional "current_condition_status" text
      ∷ optional "current_drum_id" text
      ∷ optional "current_side" text
      ∷ optional "current_storage_id" text
      ∷ required "id" text
      ∷ required "install_age_days" number
      ∷ required "installed" boolean
      ∷ required "lifecycle_status" text
      ∷ required "line_type_name" text
      ∷ required "location_label" text
      ∷ required "maker_name" text
      ∷ required "name" text
      ∷ optional "next_inspection_due" text
      ∷ required "product_name" text
      ∷ required "serial_number" text
      ∷ optional "tag_number" text
      ∷ [];
}

abbrev pub line_type : Schema
line_type = record {
  name = "LineType";
  members =
      optional "$schema" text
      ∷ optional "description" text
      ∷ required "id" text
      ∷ required "name" text
      ∷ [];
}

abbrev pub list_lines_response : Schema
list_lines_response = record {
  name = "List-linesResponse";
  members =
      optional "$schema" text
      ∷ required "items" (array_or_null (named "LineRow"))
      ∷ required "total" number
      ∷ [];
}

abbrev pub maker : Schema
maker = record {
  name = "Maker";
  members =
      optional "$schema" text
      ∷ required "id" text
      ∷ required "name" text
      ∷ optional "notes" text
      ∷ [];
}

abbrev pub product : Schema
product = record {
  name = "Product";
  members =
      optional "$schema" text
      ∷ required "can_be_turned" boolean
      ∷ optional "construction_type" text
      ∷ optional "default_length" number
      ∷ required "id" text
      ∷ required "line_type_id" text
      ∷ required "line_type_name" text
      ∷ required "maker_id" text
      ∷ required "maker_name" text
      ∷ optional "manufacturer_manual_ref" text
      ∷ optional "notes" text
      ∷ required "product_name" text
      ∷ [];
}

abbrev pub storage : Schema
storage = record {
  name = "Storage";
  members =
      required "id" text
      ∷ required "label" text
      ∷ required "line_count" number
      ∷ required "station" text
      ∷ optional "worst_status" text
      ∷ required "x" number
      ∷ required "y" number
      ∷ [];
}

abbrev pub vessel : Schema
vessel = record {
  name = "Vessel";
  members =
      optional "$schema" text
      ∷ required "id" text
      ∷ optional "imo" text
      ∷ required "name" text
      ∷ [];
}

abbrev pub winch : Schema
winch = record {
  name = "Winch";
  members =
      required "drive_type" text
      ∷ required "drum_count" number
      ∷ required "drums" (array_or_null (named "Drum"))
      ∷ required "id" text
      ∷ required "label" text
      ∷ required "label_auto" boolean
      ∷ required "orientation" number
      ∷ required "station" text
      ∷ optional "worst_status" text
      ∷ required "x" number
      ∷ required "y" number
      ∷ [];
}
