-- ===== src/Deck/Layout.antt =====
-- The edits of a draft layout, of web/src/features/deck/DeckPage.tsx. A handler clones the draft,
-- changes the clone in place and returns it; here it returns the new layout. `clone` is a round trip
-- through JSON, which keeps every member of a layout.
use Prim.Native.String
use text.Mathlib.Text.{starts_with}
use mooring_line_management.Base.{
  ℕ, suc, String, Bool, true, not, ◌||◌, Option, none, some, List, [], ◌∷◌, ◌++◌, str_eq, concat,
  show, or_else, is_some, filter, find, update_first, if◌then◌else◌,
}
use mooring_line_management.Int.{ℤ, pos}
use mooring_line_management.Number.{Number, maximum, minimum}
use mooring_line_management.Schema.{Drum, Winch, Storage, Layout}
use mooring_line_management.Deck.Naming.{renumber_auto}

pub data Station : Type 0 where
  fwd aft : Station

abbrev pub station_text : Station → String
station_text fwd = "fwd"
station_text aft = "aft"

-- `tmpID`: a random text where the browser gives one, else the time and a counter. The counter is
-- returned after the call.
unfoldable pub tmp_id : Option String → ℕ → ℕ → String × ℕ
tmp_id (some uuid) now seq = (String.◌++◌ "tmp:" uuid, seq)
tmp_id none now seq = (String.◌++◌ "tmp:" (concat (show now ∷ "-" ∷ show (suc seq) ∷ [])), suc seq)

unfoldable pub is_tmp : String → Bool
is_tmp id = starts_with id "tmp:"

abbrev pub vb_w : ℕ
vb_w = 1000

abbrev pub vb_h : ℕ
vb_h = 600

pub data Kind : Type 0 where
  winch storage : Kind

pub record Drag : Type 0 where
  pub id : String
  pub kind : Kind

-- `Partial<Winch>`: a member that the patch does not have is `none`.
pub record WinchPatch (N : Type 0) : Type 0 where
  pub drive_type : Option String
  pub drum_count : Option ℕ
  pub drums : Option (List Drum)
  pub id : Option String
  pub label : Option String
  pub label_auto : Option Bool
  pub orientation : Option ℤ
  pub station : Option String
  pub worst_status : Option (Option String)
  pub x : Option N
  pub y : Option N

-- `Partial<Storage>`
pub record StoragePatch (N : Type 0) : Type 0 where
  pub id : Option String
  pub label : Option String
  pub line_count : Option ℕ
  pub station : Option String
  pub worst_status : Option (Option String)
  pub x : Option N
  pub y : Option N

module _ {N : Type 0} where
  -- `Object.assign(w, patch)`
  unfoldable pub assign_winch : WinchPatch N → Winch N → Winch N
  assign_winch p w = record {
    drive_type = or_else p.drive_type w.drive_type;
    drum_count = or_else p.drum_count w.drum_count;
    drums = or_else p.drums w.drums;
    id = or_else p.id w.id;
    label = or_else p.label w.label;
    label_auto = or_else p.label_auto w.label_auto;
    orientation = or_else p.orientation w.orientation;
    station = or_else p.station w.station;
    worst_status = or_else p.worst_status w.worst_status;
    x = or_else p.x w.x;
    y = or_else p.y w.y;
  }

  unfoldable pub assign_storage : StoragePatch N → Storage N → Storage N
  assign_storage p s = record {
    id = or_else p.id s.id;
    label = or_else p.label s.label;
    line_count = or_else p.line_count s.line_count;
    station = or_else p.station s.station;
    worst_status = or_else p.worst_status s.worst_status;
    x = or_else p.x s.x;
    y = or_else p.y s.y;
  }

  abbrev pub winch_is : String → Winch N → Bool
  winch_is key w = str_eq w.id key

  abbrev pub storage_is : String → Storage N → Bool
  storage_is key s = str_eq s.id key

  unfoldable pub update_storage : String → StoragePatch N → Layout N → Layout N
  unfolding assign_storage
  update_storage key patch l = record l {
    storage = update_first (storage_is key) (assign_storage patch) l.storage;
  }

module _ {N : Type 0} ⦃num : Number N⦄ where
  -- The end of `toNorm`, from the pointer's place in the coordinates of the drawing.
  unfoldable pub to_norm : N × N → N × N
  to_norm (px, py) = (
    minimum num.one (maximum num.zero (num.divide px vb_w)),
    minimum num.one (maximum num.zero (num.divide py vb_h)),
  )

  unfoldable pub move_kind : Kind → String → N × N → Layout N → Layout N
  move_kind winch id (x, y) l = record l {
    winches = renumber_auto (update_first (winch_is id) (λ w. record w { x = x; y = y }) l.winches);
  }
  move_kind storage id (x, y) l = record l {
    storage = update_first (storage_is id) (λ s. record s { x = x; y = y }) l.storage;
  }

  -- The function that `onMove` hands to `setDraft`.
  unfoldable pub move_item : Drag → N × N → Layout N → Layout N
  unfolding move_kind
  move_item d at l = move_kind d.kind d.id at l

  -- A new winch: electric, two drums, in the middle of the deck, named from its position.
  unfoldable pub new_winch : String → Station → Winch N
  new_winch id station = record {
    drive_type = "electric";
    drum_count = 2;
    drums = [];
    id = id;
    label = "";
    label_auto = true;
    orientation = pos 0;
    station = station_text station;
    worst_status = some "";
    x = num.half;
    y = num.half;
  }

  unfoldable pub new_storage : String → Station → Storage N
  new_storage id station = record {
    id = id;
    label = "New store";
    line_count = 0;
    station = station_text station;
    worst_status = some "";
    x = num.half;
    y = num.half;
  }

  unfoldable pub add_winch : String → Station → Layout N → Layout N
  unfolding new_winch
  add_winch id station l = record l {
    winches = renumber_auto (l.winches ++ new_winch id station ∷ []);
  }

  unfoldable pub add_storage : String → Station → Layout N → Layout N
  unfolding new_storage
  add_storage id station l = record l { storage = l.storage ++ new_storage id station ∷ [] }

  -- Names are derived again when the patch moves the winch or switches automatic naming.
  unfoldable pub update_winch : String → WinchPatch N → Layout N → Layout N
  unfolding assign_winch
  update_winch key patch l =
      let next = update_first (winch_is key) (assign_winch patch) l.winches in
      if is_some (find (winch_is key) l.winches)
      then record l {
        winches =
            if is_some patch.station || is_some patch.label_auto then renumber_auto next else next;
      }
      else l

  unfoldable pub remove : String → Layout N → Layout N
  remove key l = record l {
    winches = renumber_auto (filter (λ w. not (winch_is key w)) l.winches);
    storage = filter (λ s. not (storage_is key s)) l.storage;
  }
