-- ===== src/Api/Hooks.antt =====
-- web/src/api/hooks.ts: what the typed client's answers become. openapi-fetch gives `data`, `error` and
-- the response; the last is missing where none came.
use mooring_line_management.Base.{
  ℕ, String, Bool, false, Option, none, some, ◌==◌, or_else, if◌then◌else◌,
}
use mooring_line_management.Api.Http.{Problem, move_failed, refused, Outcome, resolved, rejected}

pub record Result (A : Type 0) : Type 0 where
  pub value : Option A
  pub error : Option Problem
  pub status : Option ℕ

-- `if (error) throw error; return data`
unfoldable pub unwrap : {A : Type 0} → Result A → Outcome (Option A)
unwrap r = elim r.error [ none ↦ resolved r.value | some e ↦ rejected (refused e) ]

-- The body of a move: one of the two targets.
pub record MoveBody : Type 0 where
  pub to_drum_id : Option String
  pub to_storage_id : Option String

abbrev pub status_is : ℕ → Option ℕ → Bool
status_is n none = false
status_is n (some s) = s == n

abbrev pub detail_of : Option Problem → Option String
detail_of none = none
detail_of (some p) = p.detail

-- The message of a `MoveError`.
unfoldable pub move_message : Option ℕ → Option String → String
move_message status detail =
    if status_is 409 status
    then "That drum already holds a line."
    else if status_is 422 status
    then or_else detail "Invalid move target."
    else if status_is 404 status
    then "Line or destination not found."
    else or_else detail "Move failed. Try again."

unfoldable pub move_result : {A : Type 0} → Result A → Outcome A
unfolding move_message
move_result r = elim r.error [
  | some e ↦ rejected (move_failed (or_else r.status 0) (move_message r.status e.detail))
  | none ↦ elim r.value [
    | some line ↦ resolved line
    | none ↦ rejected (move_failed (or_else r.status 0) (move_message r.status none))
  ]
]
