-- ===== src/Files.antt =====
-- web/src/features/files and web/src/features/inspections: the bodies of the uploads and of an inspection,
-- the size of a document, and the base64 text of a file.
pub mod Sizes
pub mod Payload
use Prim.Native.Char.{Char, code}
use Prim.Native.String
use mooring_line_management.Base.{
  ℕ, zero, suc, ◌+◌, ◌*◌, ◌/◌, ◌%◌, String, Bool, true, false, not, ◌&&◌, ◌||◌, Option, none, some,
  List, [], ◌∷◌, ltb, leb, ◌==◌, concat, show, truthy, or_undefined, if◌then◌else◌,
}
use mooring_line_management.Api.Http.{Outcome, resolved, rejected, ◌>>=◌}

-- The test of `humanSize`'s loop. `n` is `bytes / scale`, a division by a power of two, which is exact; so
-- `n >= 1024` is `scale * 1024 <= bytes`.
unfoldable pub too_large : ℕ → ℕ × ℕ → Bool
too_large bytes (i, scale) = leb (scale * 1024) bytes && ltb i 3

-- The loop: the unit's place and the size of one.
unfoldable pub climb : (fuel : ℕ) → (bytes : ℕ) → ℕ × ℕ → ℕ × ℕ
unfolding too_large
climb zero bytes s = s
climb (suc fuel) bytes s =
    let rest = climb fuel bytes (suc s.0, s.1 * 1024) in if too_large bytes s then rest else s

unfoldable pub size_unit : ℕ → ℕ × ℕ
unfolding climb
size_unit bytes = climb 3 bytes (0, 1)

abbrev pub unit_name : ℕ → String
unit_name zero = "B"
unit_name (suc zero) = "KB"
unit_name (suc (suc zero)) = "MB"
unit_name _ = "GB"

-- `toFixed(1)` in tenths; a tie goes up.
unfoldable pub size_tenths : (bytes scale : ℕ) → ℕ
size_tenths bytes scale = (20 * bytes + scale) / (2 * scale)

unfoldable pub human_size : ℕ → String
unfolding size_unit size_tenths
human_size bytes =
    let (i, scale) = size_unit bytes in
    let t = size_tenths bytes scale in
    if bytes == 0
    then "—"
    else if i == 0
    then concat (show bytes ∷ " B" ∷ [])
    else concat (show (t / 10) ∷ "." ∷ show (t % 10) ∷ " " ∷ unit_name i ∷ [])

-- `result.slice(comma + 1)` for the first comma, if there is one.
after_comma : String → Option String
after_comma String.[] = none
after_comma (String.◌∷◌ c s) = let rest = after_comma s in if code c == b',' then some s else rest

-- `fileToBase64`, from what the reader gives: its result, or its error.
unfoldable pub file_to_base64 : Outcome String → Outcome String
unfolding after_comma
file_to_base64 read = do
  result ← read
  resolved (elim (after_comma result) [ none ↦ result | some rest ↦ rest ])

pub record File : Type 0 where
  pub name : String
  pub content_type : String
  -- what `readAsDataURL` ends with
  pub read : Outcome String

pub record PhotoBody : Type 0 where
  pub file_base64 : String
  pub content_type : Option String
  pub taken_at : Option String
  pub side : Option String
  pub condition_at_capture : Option String

pub record CertificateBody : Type 0 where
  pub file_base64 : String
  pub file_name : String
  pub content_type : Option String
  pub kind : Option String

pub record PhotoForm : Type 0 where
  pub file : Option File
  pub side : String
  pub condition : String
  pub taken_at : String

pub record DocumentForm : Type 0 where
  pub file : Option File
  pub kind : String

photo_body : PhotoForm → File → Outcome PhotoBody
unfolding file_to_base64
photo_body form f = do
  text ← file_to_base64 f.read
  resolved (record {
    file_base64 = text;
    content_type = or_undefined f.content_type;
    taken_at = or_undefined form.taken_at;
    side = some form.side;
    condition_at_capture = some form.condition;
  })

-- The photo form's `submit`: the request's body, none without a file; and the form after a success, which
-- keeps the side and the condition.
unfoldable pub photo_request : PhotoForm → Option (Outcome PhotoBody)
unfolding photo_body
photo_request form = elim form.file [ none ↦ none | some f ↦ some (photo_body form f) ]

unfoldable pub photo_form_after : PhotoForm → PhotoForm
photo_form_after form = record form { file = none; taken_at = "" }

certificate_body : DocumentForm → File → Outcome CertificateBody
unfolding file_to_base64
certificate_body form f = do
  text ← file_to_base64 f.read
  resolved (record {
    file_base64 = text;
    file_name = f.name;
    content_type = or_undefined f.content_type;
    kind = some form.kind;
  })

unfoldable pub certificate_request : DocumentForm → Option (Outcome CertificateBody)
unfolding certificate_body
certificate_request form = elim form.file [ none ↦ none | some f ↦ some (certificate_body form f) ]

-- The buttons "Upload".
unfoldable pub upload_disabled : Option File → (is_pending can_write : Bool) → Bool
upload_disabled none is_pending can_write = true
upload_disabled (some f) is_pending can_write = is_pending || not can_write

pub record InspectionForm : Type 0 where
  pub condition_status : String
  pub inspected_by : String
  pub notes : String
  pub inspected_at : String

pub record InspectionBody : Type 0 where
  pub condition_status : String
  pub inspected_by : Option String
  pub notes : Option String
  pub inspected_at : Option String

-- The body of `LogInspectionDialog`'s `submit`; a time gets its seconds and the zone of Greenwich.
unfoldable pub inspection_body : InspectionForm → InspectionBody
inspection_body f = record {
  condition_status = f.condition_status;
  inspected_by = or_undefined f.inspected_by;
  notes = or_undefined f.notes;
  inspected_at =
      if truthy f.inspected_at then some (concat (f.inspected_at ∷ ":00Z" ∷ [])) else none;
}
