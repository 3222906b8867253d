-- ===== src/Tests/Panel.antt =====
-- The deck panel's pickers on one winch.
use mooring_line_management.Base.{
  OnSome, ℕ, ◌≡◌, ◌↔◌, ◌⊎◌, refl, true, none, some, List, [], ◌∷◌, Memᴰ, All, length, ◌≤◌, show,
}
use mooring_line_management.Int.{pos}
use mooring_line_management.Schema.{Drum, Winch, Layout, LineRow}
use mooring_line_management.Deck.Panel.{Target, drum, move_targets}
use mooring_line_management.Deck.Panel.Targets.{UnusedDrum, NewStore, move_targets_iff}
use mooring_line_management.Deck.Panel.Moves.{
  at_winch, PanelEvent, press, pick, answered, moved, refused, closed, Sent, run, picked_moves,
}
use mooring_line_management.Deck.Panel.Moves.Free.{IsFreeMove, IsOffered, picked_moves-IsFreeMove}
use mooring_line_management.Deck.Panel.Moves.Count.{openings_and_refusals, picked_moves-length}

abbrev first_drum : Drum
first_drum = record { id = "d1"; idx = 1; line_count = 1 }

abbrev second_drum : Drum
second_drum = record { id = "d2"; idx = 2; line_count = 0 }

abbrev capstan : Winch ℕ
capstan = record {
  drive_type = "electric";
  drum_count = 2;
  drums = second_drum ∷ first_drum ∷ [];
  id = "w1";
  label = "FWD-P1";
  label_auto = true;
  orientation = pos 0;
  station = "fwd";
  worst_status = none;
  x = 300;
  y = 200;
}

abbrev deck : Layout ℕ
deck = record { storage = []; vessel_id = "v"; winches = capstan ∷ [] }

abbrev pub bow_line : LineRow
bow_line = record {
  build_age_days = pos 400;
  certificate_number = none;
  current_condition_status = some "Good";
  current_drum_id = some "d1";
  current_side = some "A";
  current_storage_id = none;
  id = "l1";
  install_age_days = pos 300;
  installed = true;
  lifecycle_status = "active";
  line_type_name = "Rope";
  location_label = "FWD-P1";
  maker_name = "M";
  name = "Bow line";
  next_inspection_due = none;
  product_name = "P";
  serial_number = "S1";
  tag_number = none;
}

abbrev pub spare_line : LineRow
spare_line = record bow_line {
  id = "l2";
  name = "Spare";
  current_drum_id = none;
  lifecycle_status = "spare";
  install_age_days = pos 3;
}

abbrev pub aboard : List LineRow
aboard = bow_line ∷ spare_line ∷ []

abbrev to_second : Target
to_second = record { id = "d2"; kind = drum; label = "FWD-P1 · D2"; station = "fwd" }

move_targets_iff_example : Memᴰ to_second (move_targets spare_line aboard deck) ↔ (
    UnusedDrum to_second spare_line aboard (capstan ∷ [])
    ⊎ NewStore {N = ℕ} to_second spare_line [])
move_targets_iff_example =
    move_targets_iff to_second spare_line aboard deck ((refl, (refl, tt)), tt)

-- The empty drum's row is pressed, the spare picked and refused, picked again and moved.
abbrev second_try : List PanelEvent
second_try =
    press 1 0
    ∷ pick 0
    ∷ answered true (refused (some 409) none)
    ∷ pick 0
    ∷ pick 0
    ∷ answered true moved
    ∷ pick 0
    ∷ []

abbrev spare_to_second : Sent
spare_to_second = ("l2", record { to_drum_id = some "d2"; to_storage_id = none })

second_try-picked_moves :
    picked_moves (at_winch capstan) aboard deck second_try closed
    ≡ spare_to_second ∷ spare_to_second ∷ []
unfolding picked_moves show
second_try-picked_moves = refl

picked_moves-IsFreeMove_example :
    All
      (IsFreeMove (at_winch capstan) aboard deck)
      (picked_moves (at_winch capstan) aboard deck second_try closed)
    × OnSome
        (IsOffered (at_winch capstan) aboard)
        (run (at_winch capstan) aboard deck second_try closed).dialog
picked_moves-IsFreeMove_example =
    picked_moves-IsFreeMove (at_winch capstan) aboard deck ((refl, (refl, tt)), tt) second_try

picked_moves-length_example :
    length (picked_moves (at_winch capstan) aboard deck second_try closed)
    ≤ openings_and_refusals second_try
picked_moves-length_example = picked_moves-length (at_winch capstan) aboard deck second_try
