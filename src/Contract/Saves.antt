-- ===== src/Contract/Saves.antt =====
-- What a deck session saves is of the schema's type.
use mooring_line_management.Base.{◌≡◌, refl, true, any, Option, none, some, List, All-map}
use mooring_line_management.Number.{Number}
use mooring_line_management.Schema.{Winch, Storage, Layout, LayoutBody}
use mooring_line_management.Deck.Layout.{
  Station, fwd, aft, station_text, new_winch, new_storage, assign_winch, assign_storage,
}
use mooring_line_management.Deck.Session.{
  Drive, electric, hydraulic, drive_text, degrees, Preset, straight, right_45, left_45, right_90,
  left_90, WinchChange, set_drive, rotate, StorageChange, relabel, winch_patch, storage_patch,
  Event, run, initial,
}
use mooring_line_management.Deck.Session.Draft.{OnDraft, AllBring, run-OnDraft}
use mooring_line_management.Deck.Session.Items.{ItemRules, AllItems, AllItems-IsKept}
use mooring_line_management.Deck.Save.{winch_body, storage_body, layout_body, save_request}
use mooring_line_management.Contract.Shape.{named}
use mooring_line_management.Contract.Conforms.{int_eq, conforms}
use mooring_line_management.Contract.Bodies.{layout_json}
use mooring_line_management.Contract.Sending.{
  IsOneOf, stations, drives, orientations, WinchLiterals, layout_json-conforms,
}

station_text-IsOneOf : (s : Station) → IsOneOf stations (station_text s)
station_text-IsOneOf fwd = refl
station_text-IsOneOf aft = refl

drive_text-IsOneOf : (d : Drive) → IsOneOf drives (drive_text d)
drive_text-IsOneOf electric = refl
drive_text-IsOneOf hydraulic = refl

degrees_listed : (o : Preset) → any (int_eq (degrees o)) orientations ≡ true
degrees_listed straight = refl
degrees_listed right_45 = refl
degrees_listed left_45 = refl
degrees_listed right_90 = refl
degrees_listed left_90 = refl

module _ {N : Type 0} ⦃num : Number N⦄ where
  -- What a winch sends of the schema's enumerations.
  abbrev pub IsSendable : Winch N → Type 0
  IsSendable w = WinchLiterals (winch_body w)

  abbrev pub IsSendableStore : Storage N → Type 0
  IsSendableStore s = IsOneOf stations s.station

  changed-IsSendable :
      (c : WinchChange) (w v : Winch N)
      → IsSendable v
      → IsSendable (assign_winch (winch_patch w c) v)
  unfolding winch_body assign_winch winch_patch
  changed-IsSendable (set_drive d) w v b = record {
    station = b.station;
    drive_type = drive_text-IsOneOf d;
    orientation = b.orientation;
  }
  changed-IsSendable (WinchChange.set_station s) w v b = record {
    station = station_text-IsOneOf s;
    drive_type = b.drive_type;
    orientation = b.orientation;
  }
  changed-IsSendable (rotate o) w v b = record {
    station = b.station;
    drive_type = b.drive_type;
    orientation = degrees_listed o;
  }
  changed-IsSendable _ w v b = record {
    station = b.station;
    drive_type = b.drive_type;
    orientation = b.orientation;
  }

  store_changed-IsSendable :
      (c : StorageChange) (s : Storage N)
      → IsSendableStore s
      → IsSendableStore (assign_storage (storage_patch c) s)
  unfolding assign_storage storage_patch
  store_changed-IsSendable (relabel text) s h = h
  store_changed-IsSendable (StorageChange.set_station st) s h = station_text-IsOneOf st

  IsSendable-rules : ItemRules IsSendable IsSendableStore (λ id. Unit {0})
  unfolding winch_body new_winch new_storage assign_storage storage_patch
  IsSendable-rules = record {
    named = λ w label b. record {
      station = b.station;
      drive_type = b.drive_type;
      orientation = b.orientation;
    };
    moved = λ w x y hx hy b. record {
      station = b.station;
      drive_type = b.drive_type;
      orientation = b.orientation;
    };
    new = λ id s q. record {
      station = station_text-IsOneOf s;
      drive_type = refl;
      orientation = refl;
    };
    changed = λ c w v h b. changed-IsSendable c w v b;
    store_moved = λ s x y hx hy b. b;
    new_store = λ id s q. station_text-IsOneOf s;
    store_changed = store_changed-IsSendable;
  }

  -- A save, if there is one, is of the type that the operation asks for.
  abbrev pub SaveConforms : Option (LayoutBody N) → Type 0
  SaveConforms none = Unit {0}
  SaveConforms (some b) = conforms (named "Save-layoutRequest") (layout_json b) ≡ true

  save_of_draft :
      (o : Option (Layout N))
      → OnDraft (AllItems IsSendable IsSendableStore) o
      → SaveConforms (elim o [ none ↦ none | some l ↦ some (layout_body l) ])
  unfolding layout_body storage_body
  save_of_draft none h = tt
  save_of_draft (some l) h =
      layout_json-conforms (layout_body l) (All-map WinchLiterals winch_body l.winches h.0)
        (All-map (λ s. IsOneOf stations s.station) storage_body l.storage h.1)

  -- Whatever is edited, the body that a save sends is of the type that the schema asks for, the
  -- enumerated drives, orientations and stations among it, if that holds of the items of each layout
  -- from which the session starts or resets its draft.
  pub run-SaveConforms :
      (es : List (Event N))
      → AllBring (AllItems IsSendable IsSendableStore) (λ id. Unit {0}) es
      → SaveConforms (save_request (run es initial))
  unfolding save_request initial
  run-SaveConforms es b = save_of_draft (run es initial).draft (
      run-OnDraft _ _ (AllItems-IsKept IsSendable IsSendableStore _ IsSendable-rules) es initial b
        tt)
