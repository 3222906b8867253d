-- ===== src/Deck/Naming.antt =====
-- Derived winch names, of web/src/features/deck/DeckPage.tsx: `sideOf`, `positionLabel` and
-- `renumberAuto`, with a description of the numbering that has no counters.
pub mod Numbering
pub mod Labels
pub mod Canonical
use mooring_line_management.Base.{
  ℕ, suc, ◌+◌, String, Bool, not, ◌&&◌, Option, none, some, List, [], ◌∷◌, str_eq, concat, show,
  to_upper_case, or_else, if◌then◌else◌,
}
use mooring_line_management.Number.{Number}
use mooring_line_management.Schema.{Winch}

pub data Side : Type 0 where
  port starboard center : Side

abbrev pub letter : Side → String
letter port = "P"
letter starboard = "S"
letter center = "C"

abbrev pub side_name : Side → String
side_name port = "Port"
side_name starboard = "Starboard"
side_name center = "Center"

abbrev pub station_name : String → Option String
station_name station =
    if str_eq station "fwd"
    then some "Forward"
    else if str_eq station "aft"
    then some "Aft"
    else none

-- The counters of `renumberAuto`, an object that is read with `?? 0`.
pub lookup : String → List (String × ℕ) → Option ℕ
lookup k [] = none
lookup k ((j, n) ∷ m) = if str_eq j k then some n else lookup k m

pub insert : String → ℕ → List (String × ℕ) → List (String × ℕ)
insert k v [] = (k, v) ∷ []
insert k v ((j, n) ∷ m) = if str_eq j k then (k, v) ∷ m else (j, n) ∷ insert k v m

module _ {N : Type 0} ⦃num : Number N⦄ where
  unfoldable pub side_of : N → Side
  side_of x =
      if num.lt x num.port_edge
      then port
      else if num.lt num.starboard_edge x
      then starboard
      else center

  unfoldable pub position_label : String → N → String
  unfolding side_of
  position_label station x =
      concat (or_else (station_name station) station ∷ " · " ∷ side_name (side_of x) ∷ [])

  -- `w.station + side`
  unfoldable pub key_of : Winch N → String
  unfolding side_of
  key_of w = concat (w.station ∷ letter (side_of w.x) ∷ [])

  -- The text between the station's name and the number's end.
  unfoldable pub auto_label : Winch N → ℕ → String
  unfolding side_of
  auto_label w n = concat (to_upper_case w.station ∷ "-" ∷ letter (side_of w.x) ∷ show n ∷ [])

  -- One round of the loop of `renumberAuto`: the winch and the counters after it.
  visit : List (String × ℕ) → Winch N → Winch N × List (String × ℕ)
  unfolding lookup insert
  visit counters w =
      let n = or_else (lookup (key_of w) counters) 0 + 1 in
      if w.label_auto
      then (record w { label = auto_label w n }, insert (key_of w) n counters)
      else (w, counters)

  renumber_from : List (String × ℕ) → List (Winch N) → List (Winch N)
  unfolding visit
  renumber_from counters [] = []
  renumber_from counters (w ∷ ws) = (visit counters w).0 ∷ renumber_from (visit counters w).1 ws

  unfoldable pub renumber_auto : List (Winch N) → List (Winch N)
  unfolding renumber_from
  renumber_auto ws = renumber_from [] ws
