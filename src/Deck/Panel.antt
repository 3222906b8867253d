-- ===== src/Deck/Panel.antt =====
-- web/src/features/deck/WinchPanel.tsx: the ropes of a selected winch or store, and the dialogs that move
-- and assign them.
pub mod Targets
pub mod Moves
pub mod Pickers
use mooring_line_management.Base.{
  ℕ, String, Bool, true, false, not, ◌&&◌, ◌||◌, Option, none, some, List, [], ◌∷◌, ◌++◌, ◌==◌, leb,
  map, filter, find, any, length, str_eq, concat, show, truthy, or_else, or_undefined, sort_by,
  if◌then◌else◌,
}
use mooring_line_management.Schema.{Drum, Winch, Storage, Layout, LineRow}
use mooring_line_management.Api.Hooks.{MoveBody}

-- `!!o` and `o === id` for an optional text.
abbrev pub is_set : Option String → Bool
is_set none = false
is_set (some s) = truthy s

abbrev pub is_text : Option String → String → Bool
is_text none id = false
is_text (some s) id = str_eq s id

unfoldable pub is_assignable : LineRow → Bool
is_assignable l =
    if is_set l.current_drum_id
    then false
    else if str_eq l.lifecycle_status "spare"
    then true
    else str_eq l.lifecycle_status "active" && is_set l.current_storage_id

-- `[...drums].sort((a, b) => a.idx - b.idx)`
abbrev pub drum_le : Drum → Drum → Bool
drum_le a b = leb a.idx b.idx

abbrev pub by_idx : List Drum → List Drum
by_idx ds = sort_by drum_le ds

unfoldable pub line_on_drum : List LineRow → String → Option LineRow
line_on_drum lines id = find (λ l. is_text l.current_drum_id id) lines

abbrev pub drum_label : String → Drum → String
drum_label winch_label d = concat (winch_label ∷ " · D" ∷ show d.idx ∷ [])

-- A row of the winch's panel: the rope on the drum with its actions, or the two ways to fill it.
pub data DrumRow : Type 0 where
  holding : Drum → LineRow → DrumRow
  empty : Drum → (label : String) → DrumRow

drum_row : String → List LineRow → Drum → DrumRow
unfolding line_on_drum
drum_row label lines d = elim (line_on_drum lines d.id) [
  | none ↦ empty d (drum_label label d)
  | some l ↦ holding d l
]

-- The dialogs of the two panels.
pub data Dialog : Type 0 where
  move inspect : LineRow → Dialog
  assign register : (drum_id label : String) → Dialog

-- What the row's buttons open, in their order.
unfoldable pub row_dialogs : DrumRow → List Dialog
row_dialogs (holding d l) = move l ∷ inspect l ∷ []
row_dialogs (empty d label) = assign d.id label ∷ register d.id label ∷ []

-- The chip "Turn" is disabled without a definite side, and while a turn is pending.
unfoldable pub turn_disabled : Option String → (is_pending : Bool) → Bool
turn_disabled side is_pending = not (is_set side) || is_text side "n/a" || is_pending

-- The ropes of a store.
unfoldable pub stored_here : List LineRow → String → List LineRow
stored_here lines id = filter (λ l. is_text l.current_storage_id id) lines

pub data TargetKind : Type 0 where
  drum storage : TargetKind

pub record Target : Type 0 where
  pub id : String
  pub kind : TargetKind
  pub label : String
  pub station : String

-- `occupied.has(id)`, where the set has the drums of all lines that are on one.
unfoldable pub is_occupied : List LineRow → String → Bool
is_occupied lines id = any (λ l. is_set l.current_drum_id && is_text l.current_drum_id id) lines

abbrev pub is_free_for : LineRow → List LineRow → Drum → Bool
is_free_for l lines d = not (is_occupied lines d.id) && not (is_text l.current_drum_id d.id)

module _ {N : Type 0} where
  unfoldable pub winch_rows : List LineRow → Winch N → List DrumRow
  unfolding drum_row
  winch_rows lines w = map (drum_row w.label lines) (by_idx w.drums)

  abbrev pub drum_target : Winch N → Drum → Target
  drum_target w d = record {
    id = d.id;
    kind = drum;
    label = drum_label w.label d;
    station = w.station;
  }

  unfoldable pub winch_targets : LineRow → List LineRow → Winch N → List Target
  winch_targets l lines w = map (drum_target w) (filter (is_free_for l lines) (by_idx w.drums))

  unfoldable pub drum_targets : LineRow → List LineRow → List (Winch N) → List Target
  unfolding winch_targets
  drum_targets l lines [] = []
  drum_targets l lines (w ∷ ws) = winch_targets l lines w ++ drum_targets l lines ws

  abbrev pub storage_target : Storage N → Target
  storage_target s = record { id = s.id; kind = storage; label = s.label; station = s.station }

  unfoldable pub storage_targets : LineRow → List (Storage N) → List Target
  storage_targets l ss =
      map storage_target (filter (λ s. not (is_text l.current_storage_id s.id)) ss)

  unfoldable pub move_targets : LineRow → List LineRow → Layout N → List Target
  unfolding drum_targets storage_targets
  move_targets l lines layout =
      drum_targets l lines layout.winches ++ storage_targets l layout.storage

-- `go` of the two pickers.
unfoldable pub move_body : Target → MoveBody
move_body t = elim t.kind [
  | drum ↦ record { to_drum_id = some t.id; to_storage_id = none }
  | storage ↦ record { to_drum_id = none; to_storage_id = some t.id }
]

unfoldable pub assign_candidates : List LineRow → List LineRow
unfolding is_assignable
assign_candidates lines = filter is_assignable lines
