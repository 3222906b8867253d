-- ===== src/Register/Add.antt =====
-- web/src/features/register/AddLineDialog.tsx. `create` is the answer to the registration, the new line's
-- id; `place` the answer to the move of that line onto a drum.
pub mod Shape
pub mod Placement
pub mod Dialog
use mooring_line_management.Base.{
  String, Bool, true, false, not, ◌&&◌, ◌||◌, Option, none, some, List, [], ◌∷◌, truthy,
  or_undefined, or_else, if◌then◌else◌,
}
use mooring_line_management.Schema.{LineBody}
use mooring_line_management.Api.Http.{
  Error, plain, forbidden, move_failed, refused, Outcome, resolved, rejected,
}
use mooring_line_management.Api.Hooks.{MoveBody}

pub data Lifecycle : Type 0 where
  active ordered spare : Lifecycle

abbrev pub lifecycle_text : Lifecycle → String
lifecycle_text active = "active"
lifecycle_text ordered = "ordered"
lifecycle_text spare = "spare"

-- The inputs' texts.
pub record Form : Type 0 where
  pub product_id : String
  pub name : String
  pub serial_number : String
  pub tag_number : String
  pub certificate_number : String
  pub length : String
  pub manufacture_date : String
  pub installation_date : String
  pub lifecycle_status : Lifecycle

abbrev pub blank : Form
blank = record {
  product_id = "";
  name = "";
  serial_number = "";
  tag_number = "";
  certificate_number = "";
  length = "";
  manufacture_date = "";
  installation_date = "";
  lifecycle_status = active;
}

-- `!!targetDrumId`
unfoldable pub is_placing : Option String → Bool
is_placing none = false
is_placing (some id) = truthy id

-- The button "Register line" is enabled.
unfoldable pub can_submit : Form → (is_pending : Bool) → Bool
can_submit f is_pending =
    (truthy f.product_id && truthy f.name && truthy f.serial_number) && not is_pending

-- The body of the registration; `to_number` is `Number`.
unfoldable pub line_body :
    {N : Type 0} → (to_number : String → N) → Option String → Form → LineBody N
unfolding is_placing
line_body to_number target f = record {
  certificate_number = or_undefined f.certificate_number;
  current_side = none;
  installation_date = or_undefined f.installation_date;
  length = if truthy f.length then some (to_number f.length) else none;
  lifecycle_status = if is_placing target then "spare" else lifecycle_text f.lifecycle_status;
  manufacture_date = or_undefined f.manufacture_date;
  name = f.name;
  product_id = f.product_id;
  serial_number = f.serial_number;
  tag_number = or_undefined f.tag_number;
}

pub data Call (N : Type 0) : Type 0 where
  register : LineBody N → Call N
  move : (line_id : String) → MoveBody → Call N

-- What a `submit` does: its requests in order, the text of `placeErr`, whether the dialog closes, and
-- what the promise does.
pub record Submitted (N : Type 0) : Type 0 where
  pub calls : List (Call N)
  pub place_err : Option String
  pub closes : Bool
  pub promise : Outcome (Unit {0})

-- `(e as MoveError)?.message ?? …`
unfoldable pub place_message : Error → String
place_message (plain message) = message
place_message (move_failed status message) = message
place_message forbidden = "forbidden"
place_message (refused problem) = "Registered as spare, but placing on the drum failed."

abbrev pub to_drum : String → MoveBody
to_drum id = record { to_drum_id = some id; to_storage_id = none }

module _ {N : Type 0} where
  placed : LineBody N → (line_id drum_id : String) → Outcome (Unit {0}) → Submitted N
  unfolding place_message
  placed body line_id drum_id (resolved _) = record {
    calls = register body ∷ move line_id (to_drum drum_id) ∷ [];
    place_err = none;
    closes = true;
    promise = resolved tt;
  }
  placed body line_id drum_id (rejected e) = record {
    calls = register body ∷ move line_id (to_drum drum_id) ∷ [];
    place_err = some (place_message e);
    closes = false;
    promise = resolved tt;
  }

  -- `if (placing && targetDrumId)`, where the second test repeats the first.
  registered :
      LineBody N
      → Option String
      → (place : String → Outcome (Unit {0})) → (line_id : String) → Submitted N
  unfolding placed
  registered body none place line_id = record {
    calls = register body ∷ [];
    place_err = none;
    closes = true;
    promise = resolved tt;
  }
  registered body (some drum_id) place line_id =
      if truthy drum_id then placed body line_id drum_id (place line_id) else record {
        calls = register body ∷ [];
        place_err = none;
        closes = true;
        promise = resolved tt;
      }

  unfoldable pub submit :
      (to_number : String → N)
      → Option String
      → Form
      → (create : Outcome String) → (place : String → Outcome (Unit {0})) → Submitted N
  unfolding line_body registered
  submit to_number target f (rejected e) place = record {
    calls = register (line_body to_number target f) ∷ [];
    place_err = none;
    closes = false;
    promise = rejected e;
  }
  submit to_number target f (resolved line_id) place =
      registered (line_body to_number target f) target place line_id
