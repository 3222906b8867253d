-- ===== src/Deck/Save.antt =====
-- Saving a draft, of `doSave` in web/src/features/deck/DeckPage.tsx.
pub mod Ids
use mooring_line_management.Base.{String, Option, none, some, map, if◌then◌else◌}
use mooring_line_management.Schema.{Winch, Storage, Layout, WinchBody, StorageBody, LayoutBody}
use mooring_line_management.Deck.Layout.{is_tmp}
use mooring_line_management.Deck.Session.{Page}

-- `isTmp(id) ? undefined : id`
unfoldable pub sent_id : String → Option String
sent_id id = if is_tmp id then none else some id

module _ {N : Type 0} where
  unfoldable pub winch_body : Winch N → WinchBody N
  winch_body w = record {
    drive_type = w.drive_type;
    drum_count = w.drum_count;
    id = sent_id w.id;
    label = w.label;
    label_auto = w.label_auto;
    orientation = w.orientation;
    station = w.station;
    x = w.x;
    y = w.y;
  }

  unfoldable pub storage_body : Storage N → StorageBody N
  storage_body s = record {
    id = sent_id s.id;
    label = s.label;
    station = s.station;
    x = s.x;
    y = s.y;
  }

  unfoldable pub layout_body : Layout N → LayoutBody N
  layout_body l = record {
    winches = map winch_body l.winches;
    storage = map storage_body l.storage;
  }

  -- The body that `doSave` sends, if there is a draft.
  unfoldable pub save_request : Page N → Option (LayoutBody N)
  save_request p = elim p.draft [ none ↦ none | some l ↦ some (layout_body l) ]
