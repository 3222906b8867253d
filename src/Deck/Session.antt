-- ===== src/Deck/Session.antt =====
-- The deck page as a state machine: the state hooks of `DeckPage`, its handlers as steps, and the
-- patches of its editors (web/src/features/deck/DeckPage.tsx).
pub mod Draft
pub mod Items
pub mod Bounds
pub mod Names
pub mod Distinct
pub mod Plan
use mooring_line_management.Base.{
  ℕ, ◌+◌, ◌-◌, min, max, String, Bool, true, false, not, ◌&&◌, ◌||◌, Option, none, some, List, [],
  ◌∷◌, str_eq, truthy, is_some, filter, find, if◌then◌else◌, map,
}
use mooring_line_management.Int.{ℤ, pos, negsuc}
use mooring_line_management.Number.{Number}
use mooring_line_management.Schema.{Winch, Storage, Layout, WinchBody, StorageBody, LayoutBody}
use mooring_line_management.Deck.Layout.{
  Station, fwd, aft, station_text, Drag, Kind, WinchPatch, StoragePatch, is_tmp, to_norm, move_item,
  add_winch, add_storage, update_winch, update_storage, remove, winch_is, storage_is,
}

pub data Drive : Type 0 where
  electric hydraulic : Drive

abbrev pub drive_text : Drive → String
drive_text electric = "electric"
drive_text hydraulic = "hydraulic"

-- The five presets of `ORIENTATIONS`.
pub data Preset : Type 0 where
  straight right_45 left_45 right_90 left_90 : Preset

abbrev pub degrees : Preset → ℤ
degrees straight = pos 0
degrees right_45 = pos 45
degrees left_45 = negsuc 44
degrees right_90 = pos 90
degrees left_90 = negsuc 89

-- What the controls of `WinchEditor` do.
pub data WinchChange : Type 0 where
  use_auto : WinchChange
  rename : String → WinchChange
  set_drive : Drive → WinchChange
  set_station : Station → WinchChange
  fewer_drums more_drums : WinchChange
  rotate : Preset → WinchChange

pub data StorageChange : Type 0 where
  relabel : String → StorageChange
  set_station : Station → StorageChange

abbrev no_patch : {N : Type 0} → WinchPatch N
no_patch = record {
  drive_type = none;
  drum_count = none;
  drums = none;
  id = none;
  label = none;
  label_auto = none;
  orientation = none;
  station = none;
  worst_status = none;
  x = none;
  y = none;
}

abbrev no_storage_patch : {N : Type 0} → StoragePatch N
no_storage_patch = record {
  id = none;
  label = none;
  line_count = none;
  station = none;
  worst_status = none;
  x = none;
  y = none;
}

unfoldable pub winch_patch : {N : Type 0} → Winch N → WinchChange → WinchPatch N
winch_patch w use_auto = record no_patch { label_auto = some true }
winch_patch w (rename text) = record no_patch { label = some text; label_auto = some false }
winch_patch w (set_drive d) = record no_patch { drive_type = some (drive_text d) }
winch_patch w (WinchChange.set_station s) = record no_patch { station = some (station_text s) }
winch_patch w fewer_drums = record no_patch { drum_count = some (max 1 (w.drum_count - 1)) }
winch_patch w more_drums = record no_patch { drum_count = some (min 6 (w.drum_count + 1)) }
winch_patch w (rotate o) = record no_patch { orientation = some (degrees o) }

unfoldable pub storage_patch : {N : Type 0} → StorageChange → StoragePatch N
storage_patch (relabel text) = record no_storage_patch { label = some text }
storage_patch (StorageChange.set_station s) = record no_storage_patch {
  station = some (station_text s);
}

-- The hooks of `DeckPage`; `null` and `undefined` are `none`.
pub record Page (N : Type 0) : Type 0 where
  pub station : Station
  pub edit : Bool
  pub draft : Option (Layout N)
  pub drag : Option Drag
  pub sel_key : Option String

-- A user's action, or the end of a save. `enter_edit` and `reset_edit` read the layout query's data;
-- a new item has an id of `tmpID`.
pub data Event (N : Type 0) : Type 0 where
  enter_edit : (can_write : Bool) → Option (Layout N) → Event N
  reset_edit : Option (Layout N) → Event N
  cancel_edit : Event N
  saved save_failed : Event N
  moved : N × N → Event N
  winch_added storage_added : (id : String) → Event N
  change_winch : WinchChange → Event N
  change_storage : StorageChange → Event N
  remove_selected : Event N
  pointer_down : Drag → Event N
  pointer_up : Event N
  select : (id : String) → Event N
  show_station : Station → Event N

abbrev pub is_selected : Option String → String → Bool
is_selected none id = false
is_selected (some key) id = str_eq id key

module _ {N : Type 0} where
  unfoldable pub initial : Page N
  initial = record { station = fwd; edit = false; draft = none; drag = none; sel_key = none }

  -- `draft?.winches.find((w) => w.id === selKey)`
  unfoldable pub edit_winch : Page N → Option (Winch N)
  edit_winch p = elim p.draft [
    | none ↦ none
    | some l ↦ find (λ w. is_selected p.sel_key w.id) l.winches
  ]

  unfoldable pub edit_storage : Page N → Option (Storage N)
  edit_storage p = elim p.draft [
    | none ↦ none
    | some l ↦ find (λ s. is_selected p.sel_key s.id) l.storage
  ]

  -- `setDraft` with a function that keeps `null`.
  abbrev pub set_draft : (Layout N → Layout N) → Page N → Page N
  set_draft f p = record p { draft = elim p.draft [ none ↦ none | some l ↦ some (f l) ] }

  -- `setSelKey(id)` inside such a function runs only where there is a draft.
  abbrev select_new : String → Page N → Page N
  select_new id p = record p { sel_key = if is_some p.draft then some id else p.sel_key }

  close : Page N → Page N
  close p = record p { edit = false; draft = none; sel_key = none }

  -- The button is shown outside edit mode, inside a `WriteGuard`, and disabled without a layout.
  open_draft : Bool → Bool → Option (Layout N) → Page N → Page N
  open_draft false true (some l) p = record p { draft = some l; edit = true; sel_key = none }
  open_draft _ _ _ p = p

  -- The buttons of the toolbar are shown in edit mode.
  in_edit : (Page N → Page N) → Page N → Page N
  in_edit f p = if p.edit then f p else p

  reload_draft : Option (Layout N) → Page N → Page N
  reload_draft none p = p
  reload_draft (some l) p = record p { draft = some l }

module _ {N : Type 0} ⦃num : Number N⦄ where
  -- `if (!edit || !drag.current || !draft) return`, and then the move.
  drag_to : Bool → Option Drag → N × N → Page N → Page N
  drag_to true (some d) at p = set_draft (move_item d (to_norm at)) p
  drag_to _ _ at p = p

  -- The editors are shown for the selected item of the draft, in edit mode; they patch that item.
  patch_selected : Bool → Option (Winch N) → Option String → WinchChange → Page N → Page N
  unfolding winch_patch
  patch_selected true (some w) (some key) change p =
      set_draft (update_winch key (winch_patch w change)) p
  patch_selected _ _ _ change p = p

  patch_storage :
      Bool → Option (Winch N) → Option (Storage N) → Option String → StorageChange → Page N → Page N
  unfolding storage_patch
  patch_storage true none (some s) (some key) change p =
      set_draft (update_storage key (storage_patch change)) p
  patch_storage _ _ _ _ change p = p

  -- `removeSel` does nothing without a selection; the empty text counts as none.
  remove_key : Option String → Page N → Page N
  remove_key none p = p
  remove_key (some key) p = if truthy key then set_draft (remove key) p else p

  put_winch : String → Page N → Page N
  put_winch id p = select_new id (set_draft (add_winch id p.station) p)

  put_storage : String → Page N → Page N
  put_storage id p = select_new id (set_draft (add_storage id p.station) p)

  unfoldable pub step : Event N → Page N → Page N
  unfolding put_winch put_storage close in_edit open_draft reload_draft drag_to patch_selected
      patch_storage remove_key edit_winch edit_storage
  step (enter_edit can_write layout) p = open_draft p.edit can_write layout p
  step (reset_edit layout) p = in_edit (reload_draft layout) p
  step cancel_edit p = in_edit close p
  step saved p = close p
  step save_failed p = p
  step (moved at) p = drag_to p.edit p.drag at p
  step (winch_added id) p = in_edit (put_winch id) p
  step (storage_added id) p = in_edit (put_storage id) p
  step (change_winch change) p = patch_selected p.edit (edit_winch p) p.sel_key change p
  step (change_storage change) p =
      patch_storage p.edit (edit_winch p) (edit_storage p) p.sel_key change p
  step remove_selected p = remove_key p.sel_key p
  step (pointer_down d) p = if p.edit then record p { drag = some d; sel_key = some d.id } else p
  step pointer_up p = record p { drag = none }
  step (select id) p = record p { sel_key = some id }
  step (show_station s) p = record p { station = s; sel_key = none }

  unfoldable pub run : List (Event N) → Page N → Page N
  run [] p = p
  run (e ∷ es) p = run es (step e p)
