-- ===== src/Contract/Bodies.antt =====
-- The JSON texts that the client's bodies become: `JSON.stringify` leaves a member out that is
-- `undefined`, and writes the others under their names. A member of a body is one of a modelled request;
-- a length is a finite number (the input of type `number` gives no other text).
use mooring_line_management.Base.{String, Option, none, some, List, [], ◌∷◌}
use mooring_line_management.Int.{pos}
use mooring_line_management.Schema.{WinchBody, StorageBody, LayoutBody, LineBody}
use mooring_line_management.Api.Hooks.{MoveBody}
use mooring_line_management.Auth.Context.{AccessLevel, denied, view, edit}
use mooring_line_management.Catalogue.{NameBody, ProductBody}
use mooring_line_management.Files.{PhotoBody, CertificateBody, InspectionBody}
use mooring_line_management.Contract.Conforms.{
  Json, bool, whole, fraction, string, array, object, Items, nil, cons, Fields, end, field,
}

-- A level that is denied is not put but deleted.
abbrev pub level_text : AccessLevel → String
level_text denied = "denied"
level_text view = "view"
level_text edit = "edit"

module _ {N : Type 0} where
  -- A member that may be `undefined`.
  unfoldable pub optional_field :
      {A : Type 0} → String → (A → Json N) → Option A → Fields N → Fields N
  optional_field name f none rest = rest
  optional_field name f (some a) rest = field name (f a) rest

  unfoldable pub items : {A : Type 0} → (A → Json N) → List A → Items N
  items f [] = nil
  items f (a ∷ as_) = cons (f a) (items f as_)

  -- The member that a text makes.
  abbrev pub text_field : String → Option String → Fields N → Fields N
  text_field name o rest = optional_field name string o rest

  abbrev pub winch_json : WinchBody N → Json N
  winch_json w = object (
      optional_field "id" string w.id (
        field "label" (string w.label) (
          field "station" (string w.station) (
            field "x" (fraction w.x) (
              field "y" (fraction w.y) (
                field "orientation" (whole w.orientation) (
                  field "drum_count" (whole (pos w.drum_count)) (
                    field "drive_type" (string w.drive_type)
                      (field "label_auto" (bool w.label_auto) end)))))))))

  abbrev pub storage_json : StorageBody N → Json N
  storage_json s = object (
      optional_field "id" string s.id (
        field "label" (string s.label) (
          field "station" (string s.station)
            (field "x" (fraction s.x) (field "y" (fraction s.y) end)))))

  abbrev pub layout_json : LayoutBody N → Json N
  layout_json l = object (
      field "winches" (array (items winch_json l.winches))
        (field "storage" (array (items storage_json l.storage)) end))

  abbrev pub line_json : LineBody N → Json N
  line_json b = object (
      field "product_id" (string b.product_id) (
        field "name" (string b.name) (
          field "serial_number" (string b.serial_number) (
            text_field "tag_number" b.tag_number (
              text_field "certificate_number" b.certificate_number (
                optional_field "length" fraction b.length (
                  text_field "manufacture_date" b.manufacture_date (
                    text_field "installation_date" b.installation_date (
                      field "lifecycle_status" (string b.lifecycle_status)
                        (text_field "current_side" b.current_side end))))))))))

  abbrev pub move_json : MoveBody → Json N
  move_json b =
      object (text_field "to_drum_id" b.to_drum_id (text_field "to_storage_id" b.to_storage_id end))

  -- `JSON.stringify({ level })`
  abbrev pub grant_json : AccessLevel → Json N
  grant_json level = object (field "level" (string (level_text level)) end)

  -- `body ?? {}` of the turn; the button gives no note.
  abbrev pub turn_json : (note : Option String) → Json N
  turn_json note = object (text_field "note" note end)

  -- A maker has `notes`, a line type a `description`.
  abbrev pub name_json : (more : String) → NameBody → Json N
  name_json more b = object (field "name" (string b.name) (text_field more b.more end))

  abbrev pub product_json : ProductBody N → Json N
  product_json b = object (
      field "maker_id" (string b.maker_id) (
        field "line_type_id" (string b.line_type_id) (
          field "product_name" (string b.product_name) (
            text_field "construction_type" b.construction_type (
              optional_field "default_length" fraction b.default_length (
                field "can_be_turned" (bool b.can_be_turned) (
                  text_field "manufacturer_manual_ref" b.manufacturer_manual_ref
                    (text_field "notes" b.notes end))))))))

  abbrev pub photo_json : PhotoBody → Json N
  photo_json b = object (
      field "file_base64" (string b.file_base64) (
        text_field "content_type" b.content_type (
          text_field "taken_at" b.taken_at (
            text_field "side" b.side
              (text_field "condition_at_capture" b.condition_at_capture end)))))

  abbrev pub certificate_json : CertificateBody → Json N
  certificate_json b = object (
      field "file_base64" (string b.file_base64) (
        field "file_name" (string b.file_name)
          (text_field "content_type" b.content_type (text_field "kind" b.kind end))))

  abbrev pub inspection_json : InspectionBody → Json N
  inspection_json b = object (
      field "condition_status" (string b.condition_status) (
        text_field "inspected_by" b.inspected_by
          (text_field "notes" b.notes (text_field "inspected_at" b.inspected_at end))))
