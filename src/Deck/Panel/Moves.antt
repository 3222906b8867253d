-- ===== src/Deck/Panel/Moves.antt =====
-- web/src/features/deck/WinchPanel.tsx: the panels as state machines, the hook of the open dialog, the
-- pickers with their mutation, and the chip that turns a line.
pub mod Free
pub mod Count
use mooring_line_management.Base.{
  ℕ, String, Bool, true, false, not, ◌&&◌, Option, none, some, List, [], ◌∷◌, ◌==◌, map, length,
  str_eq, concat, show, or_else, if◌then◌else◌, get_elem?,
}
use mooring_line_management.Schema.{Drum, Winch, Storage, Layout, LineRow}
use mooring_line_management.Api.Hooks.{MoveBody, move_message}
use mooring_line_management.Deck.Panel.{
  DrumRow, row_dialogs, Dialog, move, inspect, assign, register, winch_rows, stored_here, Target,
  drum, storage, move_targets, move_body, assign_candidates, turn_disabled,
}

-- The winch or the store whose panel is shown.
pub data Place (N : Type 0) : Type 0 where
  at_winch : Winch N → Place N
  in_store : Storage N → Place N

-- The buttons of a rope in a store.
abbrev pub store_dialogs : LineRow → List Dialog
store_dialogs l = move l ∷ inspect l ∷ []

-- The state of a picker's `useMoveLine`. A success closes the picker, and its state is gone.
pub data MoveState : Type 0 where
  idle pending : MoveState
  failed : (message : String) → MoveState

pub record PanelState : Type 0 where
  pub dialog : Option Dialog
  pub move : MoveState

abbrev pub closed : PanelState
closed = record { dialog = none; move = idle }

pub data Answer : Type 0 where
  moved : Answer
  refused : (status : Option ℕ) (detail : Option String) → Answer

-- A dialog covers the page, so a row's button is pressed while none is open. `close` is what any of the
-- dialogs does by `onClose`, the registration dialog too. An answer is for the open picker, or for one that was closed before (`own`):
-- the callback that is passed to `mutate` is then not called.
pub data PanelEvent : Type 0 where
  press : (row button : ℕ) → PanelEvent
  close : PanelEvent
  pick : (row : ℕ) → PanelEvent
  answered : (own : Bool) → Answer → PanelEvent

abbrev pub is_pending : MoveState → Bool
is_pending idle = false
is_pending pending = true
is_pending (failed m) = false

-- What a picker sends: the line's id and the body of its move.
abbrev pub Sent : Type 0
Sent = String × MoveBody

-- `setDialog` of the pressed button.
abbrev pub pressed : Option (List Dialog) → ℕ → Option Dialog
pressed none button = none
pressed (some ds) button = get_elem? ds button

-- The rows are disabled while a move is pending.
unfoldable pub go : Option Sent → (is_pending : Bool) → PanelState → PanelState × Option Sent
go o true p = (p, none)
go none false p = (p, none)
go (some s) false p = (record p { move = pending }, some s)

unfoldable pub answer : Answer → PanelState → PanelState
unfolding move_message
answer moved p = closed
answer (refused status detail) p = record p { move = failed (move_message status detail) }

module _ {N : Type 0} where
  unfoldable pub row_choices : Place N → List LineRow → List (List Dialog)
  unfolding winch_rows row_dialogs stored_here
  row_choices (at_winch w) lines = map row_dialogs (winch_rows lines w)
  row_choices (in_store s) lines = map store_dialogs (stored_here lines s.id)

  -- `go` of the picker that is open, for the row at a place of its list.
  unfoldable pub picked : List LineRow → Layout N → Dialog → ℕ → Option Sent
  unfolding move_targets move_body assign_candidates
  picked lines layout (move l) row = elim (get_elem? (move_targets l lines layout) row) [
    | none ↦ none
    | some t ↦ some (l.id, move_body t)
  ]
  picked lines layout (assign drum_id label) row = elim (get_elem? (assign_candidates lines) row) [
    | none ↦ none
    | some l ↦ some (l.id, record { to_drum_id = some drum_id; to_storage_id = none })
  ]
  picked lines layout _ row = none

  unfoldable pub step :
      Place N → List LineRow → Layout N → PanelEvent → PanelState → PanelState × Option Sent
  unfolding row_choices picked go answer
  step place lines layout (press row button) p = elim p.dialog [
    | some d ↦ (p, none)
    | none ↦ (
      record { dialog = pressed (get_elem? (row_choices place lines) row) button; move = idle },
      none,
    )
  ]
  step place lines layout close p = (closed, none)
  step place lines layout (pick row) p = elim p.dialog [
    | none ↦ (p, none)
    | some d ↦ go (picked lines layout d row) (is_pending p.move) p
  ]
  step place lines layout (answered true a) p = elim p.move [
    | pending ↦ (answer a p, none)
    | _ ↦ (p, none)
  ]
  step place lines layout (answered false a) p = (p, none)

  unfoldable pub run : Place N → List LineRow → Layout N → List PanelEvent → PanelState → PanelState
  unfolding step
  run place lines layout [] p = p
  run place lines layout (e ∷ es) p = run place lines layout es (step place lines layout e p).0

  -- The moves that the pickers of a run send, in their order. What the registration dialog sends, once it
  -- is open, is Register.Add.Dialog.
  unfoldable pub picked_moves :
      Place N → List LineRow → Layout N → List PanelEvent → PanelState → List Sent
  unfolding step
  picked_moves place lines layout [] p = []
  picked_moves place lines layout (e ∷ es) p =
      let (next, o) = step place lines layout e p in
      let rest = picked_moves place lines layout es next in
      elim o [ none ↦ rest | some s ↦ s ∷ rest ]
