-- ===== src/Deck/Session/Plan.antt =====
-- What the deck page promises, without derived names: a plan, in which a winch has a name only if the
-- user gave it one. No edit of a plan names anything; the names are put on when the plan is shown.
pub mod Shown
pub mod Edits
pub mod Refines
use mooring_line_management.Base.{
  ℕ, ◌+◌, ◌-◌, min, max, String, Bool, true, false, not, Option, none, some, List, [], ◌∷◌, ◌++◌,
  str_eq, truthy, is_some, filter, find, update_first, if◌then◌else◌, map, or_else,
}
use mooring_line_management.Int.{ℤ, pos}
use mooring_line_management.Number.{Number}
use mooring_line_management.Schema.{Drum, Winch, Storage, Layout}
use mooring_line_management.Deck.Naming.{renumber_auto}
use mooring_line_management.Deck.Layout.{
  Station, fwd, station_text, Drag, Kind, winch, storage, storage_is, to_norm, new_storage,
  assign_storage,
}
use mooring_line_management.Deck.Session.{
  WinchChange, use_auto, rename, set_drive, fewer_drums, more_drums, rotate, StorageChange,
  storage_patch, drive_text, degrees, Page, Event, enter_edit, reset_edit, cancel_edit, saved,
  save_failed, moved, winch_added, storage_added, change_winch, change_storage, remove_selected,
  pointer_down, pointer_up, select, show_station, is_selected,
}

-- A winch of a plan: `name` is what the user called it, none where its place names it.
pub record PlanWinch (N : Type 0) : Type 0 where
  pub drive_type : String
  pub drum_count : ℕ
  pub drums : List Drum
  pub id : String
  pub name : Option String
  pub orientation : ℤ
  pub station : String
  pub worst_status : Option String
  pub x : N
  pub y : N

pub record Plan (N : Type 0) : Type 0 where
  pub storage : List (Storage N)
  pub vessel_id : String
  pub winches : List (PlanWinch N)

pub record PlanPage (N : Type 0) : Type 0 where
  pub station : Station
  pub edit : Bool
  pub draft : Option (Plan N)
  pub drag : Option Drag
  pub sel_key : Option String

module _ {N : Type 0} where
  abbrev pub plan_is : String → PlanWinch N → Bool
  plan_is key w = str_eq w.id key

  -- The plan of a winch forgets a name that its place gives.
  unfoldable pub plan_of : Winch N → PlanWinch N
  plan_of w = record {
    drive_type = w.drive_type;
    drum_count = w.drum_count;
    drums = w.drums;
    id = w.id;
    name = if w.label_auto then none else some w.label;
    orientation = w.orientation;
    station = w.station;
    worst_status = w.worst_status;
    x = w.x;
    y = w.y;
  }

  unfoldable pub plan_layout : Layout N → Plan N
  plan_layout l = record {
    storage = l.storage;
    vessel_id = l.vessel_id;
    winches = map plan_of l.winches;
  }

  abbrev pub plan_option : Option (Layout N) → Option (Plan N)
  plan_option none = none
  plan_option (some l) = some (plan_layout l)

  unfoldable pub plan_page : Page N → PlanPage N
  plan_page p = record {
    station = p.station;
    edit = p.edit;
    draft = plan_option p.draft;
    drag = p.drag;
    sel_key = p.sel_key;
  }

  -- A change by the editor of `w`, made to `v`.
  unfoldable pub plan_change : PlanWinch N → WinchChange → PlanWinch N → PlanWinch N
  plan_change w use_auto v = record v { name = none }
  plan_change w (rename text) v = record v { name = some text }
  plan_change w (set_drive d) v = record v { drive_type = drive_text d }
  plan_change w (WinchChange.set_station s) v = record v { station = station_text s }
  plan_change w fewer_drums v = record v { drum_count = max 1 (w.drum_count - 1) }
  plan_change w more_drums v = record v { drum_count = min 6 (w.drum_count + 1) }
  plan_change w (rotate o) v = record v { orientation = degrees o }

  abbrev pub on_plan : (Plan N → Plan N) → PlanPage N → PlanPage N
  on_plan f p = record p { draft = elim p.draft [ none ↦ none | some l ↦ some (f l) ] }

  abbrev pub select_planned : String → PlanPage N → PlanPage N
  select_planned id p = record p { sel_key = if is_some p.draft then some id else p.sel_key }

  unfoldable pub planned_winch : PlanPage N → Option (PlanWinch N)
  planned_winch p = elim p.draft [
    | none ↦ none
    | some l ↦ find (λ w. is_selected p.sel_key w.id) l.winches
  ]

  unfoldable pub planned_storage : PlanPage N → Option (Storage N)
  planned_storage p = elim p.draft [
    | none ↦ none
    | some l ↦ find (λ s. is_selected p.sel_key s.id) l.storage
  ]

  unfoldable pub plan_close : PlanPage N → PlanPage N
  plan_close p = record p { edit = false; draft = none; sel_key = none }

  unfoldable pub plan_open : Bool → Bool → Option (Plan N) → PlanPage N → PlanPage N
  plan_open false true (some l) p = record p { draft = some l; edit = true; sel_key = none }
  plan_open _ _ _ p = p

  unfoldable pub plan_reload : Option (Plan N) → PlanPage N → PlanPage N
  plan_reload none p = p
  plan_reload (some l) p = record p { draft = some l }

  unfoldable pub plan_move : Kind → String → N × N → Plan N → Plan N
  plan_move winch id (x, y) l = record l {
    winches = update_first (plan_is id) (λ w. record w { x = x; y = y }) l.winches;
  }
  plan_move storage id (x, y) l = record l {
    storage = update_first (storage_is id) (λ s. record s { x = x; y = y }) l.storage;
  }

  unfoldable pub plan_update : String → PlanWinch N → WinchChange → Plan N → Plan N
  unfolding plan_change
  plan_update key w c l = record l {
    winches = update_first (plan_is key) (plan_change w c) l.winches;
  }

  unfoldable pub plan_update_storage : String → StorageChange → Plan N → Plan N
  plan_update_storage key c l = record l {
    storage = update_first (storage_is key) (assign_storage (storage_patch c)) l.storage;
  }

  unfoldable pub plan_remove : String → Plan N → Plan N
  plan_remove key l = record l {
    winches = filter (λ w. not (plan_is key w)) l.winches;
    storage = filter (λ s. not (storage_is key s)) l.storage;
  }

  unfoldable pub plan_patch :
      Bool → Option (PlanWinch N) → Option String → WinchChange → PlanPage N → PlanPage N
  unfolding plan_update
  plan_patch true (some w) (some key) c p = on_plan (plan_update key w c) p
  plan_patch _ _ _ c p = p

  unfoldable pub plan_patch_storage :
      Bool
      → Option (PlanWinch N)
      → Option (Storage N)
      → Option String
      → StorageChange
      → PlanPage N
      → PlanPage N
  unfolding plan_update_storage
  plan_patch_storage true none (some s) (some key) c p = on_plan (plan_update_storage key c) p
  plan_patch_storage _ _ _ _ c p = p

  unfoldable pub plan_remove_key : Option String → PlanPage N → PlanPage N
  unfolding plan_remove
  plan_remove_key none p = p
  plan_remove_key (some key) p = if truthy key then on_plan (plan_remove key) p else p

  abbrev pub when_editing : (PlanPage N → PlanPage N) → PlanPage N → PlanPage N
  when_editing f p = if p.edit then f p else p

module _ {N : Type 0} ⦃num : Number N⦄ where
  unfoldable pub plan_drag : Bool → Option Drag → N × N → PlanPage N → PlanPage N
  unfolding plan_move
  plan_drag true (some d) at p = on_plan (plan_move d.kind d.id (to_norm at)) p
  plan_drag _ _ at p = p

  -- A new winch has no name of its own.
  unfoldable pub planned_new : String → Station → PlanWinch N
  planned_new id s = record {
    drive_type = "electric";
    drum_count = 2;
    drums = [];
    id = id;
    name = none;
    orientation = pos 0;
    station = station_text s;
    worst_status = some "";
    x = num.half;
    y = num.half;
  }

  unfoldable pub plan_put : String → PlanPage N → PlanPage N
  unfolding planned_new
  plan_put id p =
      select_planned id
        (on_plan (λ l. record l { winches = l.winches ++ planned_new id p.station ∷ [] }) p)

  unfoldable pub plan_put_storage : String → PlanPage N → PlanPage N
  plan_put_storage id p =
      select_planned id
        (on_plan (λ l. record l { storage = l.storage ++ new_storage id p.station ∷ [] }) p)

  unfoldable pub plan_step : Event N → PlanPage N → PlanPage N
  unfolding plan_close plan_open plan_reload plan_drag plan_put plan_put_storage plan_patch
      plan_patch_storage plan_remove_key planned_winch planned_storage plan_layout
  plan_step (enter_edit can_write o) p = plan_open p.edit can_write (plan_option o) p
  plan_step (reset_edit o) p = when_editing (plan_reload (plan_option o)) p
  plan_step cancel_edit p = when_editing plan_close p
  plan_step saved p = plan_close p
  plan_step save_failed p = p
  plan_step (moved at) p = plan_drag p.edit p.drag at p
  plan_step (winch_added id) p = when_editing (plan_put id) p
  plan_step (storage_added id) p = when_editing (plan_put_storage id) p
  plan_step (change_winch c) p = plan_patch p.edit (planned_winch p) p.sel_key c p
  plan_step (change_storage c) p =
      plan_patch_storage p.edit (planned_winch p) (planned_storage p) p.sel_key c p
  plan_step remove_selected p = plan_remove_key p.sel_key p
  plan_step (pointer_down d) p =
      if p.edit then record p { drag = some d; sel_key = some d.id } else p
  plan_step pointer_up p = record p { drag = none }
  plan_step (select id) p = record p { sel_key = some id }
  plan_step (show_station s) p = record p { station = s; sel_key = none }

  unfoldable pub plan_run : List (Event N) → PlanPage N → PlanPage N
  plan_run [] p = p
  plan_run (e ∷ es) p = plan_run es (plan_step e p)

  -- A plan as it is shown: every winch with a name, derived where the plan has none.
  unfoldable pub shown : PlanWinch N → Winch N
  shown w = record {
    drive_type = w.drive_type;
    drum_count = w.drum_count;
    drums = w.drums;
    id = w.id;
    label = or_else w.name "";
    label_auto = not (is_some w.name);
    orientation = w.orientation;
    station = w.station;
    worst_status = w.worst_status;
    x = w.x;
    y = w.y;
  }

  unfoldable pub shown_layout : Plan N → Layout N
  unfolding shown
  shown_layout l = record {
    storage = l.storage;
    vessel_id = l.vessel_id;
    winches = renumber_auto (map shown l.winches);
  }

  unfoldable pub shown_page : PlanPage N → Page N
  unfolding shown_layout
  shown_page p = record {
    station = p.station;
    edit = p.edit;
    draft = elim p.draft [ none ↦ none | some l ↦ some (shown_layout l) ];
    drag = p.drag;
    sel_key = p.sel_key;
  }
