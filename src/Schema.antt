-- ===== src/Schema.antt =====
-- web/src/api/schema.ts: the API's types that the client computes with. An optional member is an
-- `Option`; enumerated strings stay strings where the schema types them so. The read-only member
-- `$schema` and members that no code of the client reads are kept only where a payload has them. The
-- arrays that may be `null` are lists where the server (api/internal/store) sends no `null`.
-- `N` is the type of the fractional numbers.
use mooring_line_management.Base.{ℕ, String, Bool, Option, List}
use mooring_line_management.Int.{ℤ}

pub record Drum : Type 0 where
  pub id : String
  pub idx : ℕ
  pub line_count : ℕ

pub record Winch (N : Type 0) : Type 0 where
  pub drive_type : String
  pub drum_count : ℕ
  pub drums : List Drum
  pub id : String
  pub label : String
  pub label_auto : Bool
  pub orientation : ℤ
  pub station : String
  pub worst_status : Option String
  pub x : N
  pub y : N

pub record Storage (N : Type 0) : Type 0 where
  pub id : String
  pub label : String
  pub line_count : ℕ
  pub station : String
  pub worst_status : Option String
  pub x : N
  pub y : N

-- The handler of GET and PUT layout never sends `null` for the two lists.
pub record Layout (N : Type 0) : Type 0 where
  pub storage : List (Storage N)
  pub vessel_id : String
  pub winches : List (Winch N)

pub record Vessel : Type 0 where
  pub id : String
  pub imo : Option String
  pub name : String

pub record Line (N : Type 0) : Type 0 where
  pub build_age_days : ℤ
  pub can_be_turned : Bool
  pub certificate_number : Option String
  pub certificate_ref : Option String
  pub construction_type : Option String
  pub current_condition_status : Option String
  pub current_drum_id : Option String
  pub current_side : Option String
  pub current_storage_id : Option String
  pub id : String
  pub install_age_days : ℤ
  pub installation_date : Option String
  pub installed : Bool
  pub length : Option N
  pub lifecycle_status : String
  pub line_type_name : String
  pub location_label : String
  pub maker_name : String
  pub manufacture_date : Option String
  pub name : String
  pub next_inspection_due : Option String
  pub parent_line_id : Option String
  pub product_id : String
  pub product_name : String
  pub serial_number : String
  pub side_a_age_days : ℤ
  pub side_a_change_date : Option String
  pub side_a_condition : Option String
  pub side_b_age_days : ℤ
  pub side_b_change_date : Option String
  pub side_b_condition : Option String
  pub tag_number : Option String
  pub turn_due : Bool
  pub vessel_id : String

pub record LineRow : Type 0 where
  pub build_age_days : ℤ
  pub certificate_number : Option String
  pub current_condition_status : Option String
  pub current_drum_id : Option String
  pub current_side : Option String
  pub current_storage_id : Option String
  pub id : String
  pub install_age_days : ℤ
  pub installed : Bool
  pub lifecycle_status : String
  pub line_type_name : String
  pub location_label : String
  pub maker_name : String
  pub name : String
  pub next_inspection_due : Option String
  pub product_name : String
  pub serial_number : String
  pub tag_number : Option String

-- The bodies that the client sends.
pub record WinchBody (N : Type 0) : Type 0 where
  pub drive_type : String
  pub drum_count : ℕ
  pub id : Option String
  pub label : String
  pub label_auto : Bool
  pub orientation : ℤ
  pub station : String
  pub x : N
  pub y : N

pub record StorageBody (N : Type 0) : Type 0 where
  pub id : Option String
  pub label : String
  pub station : String
  pub x : N
  pub y : N

pub record LayoutBody (N : Type 0) : Type 0 where
  pub winches : List (WinchBody N)
  pub storage : List (StorageBody N)

pub record LineBody (N : Type 0) : Type 0 where
  pub certificate_number : Option String
  pub current_side : Option String
  pub installation_date : Option String
  pub length : Option N
  pub lifecycle_status : String
  pub manufacture_date : Option String
  pub name : String
  pub product_id : String
  pub serial_number : String
  pub tag_number : Option String

pub record OverTrendPoint : Type 0 where
  pub action : ℕ
  pub inspections : ℕ
  pub month : String

pub record LineType : Type 0 where
  pub description : Option String
  pub id : String
  pub name : String

pub record Inspection : Type 0 where
  pub condition_status : String
  pub created_at : String
  pub external_id : Option String
  pub id : String
  pub inspected_at : String
  pub inspected_by : Option String
  pub line_id : String
  pub notes : Option String
  pub source : String
  pub vessel_id : String

pub record InspLogbookEntry : Type 0 where
  pub condition_status : String
  pub created_at : String
  pub external_id : Option String
  pub id : String
  pub inspected_at : String
  pub inspected_by : Option String
  pub line_id : String
  pub line_name : String
  pub notes : Option String
  pub serial_number : String
  pub source : String
  pub vessel_id : String
