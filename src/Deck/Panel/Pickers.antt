-- ===== src/Deck/Panel/Pickers.antt =====
-- web/src/features/deck/WinchPanel.tsx: what the panels and their pickers show.
use mooring_line_management.Base.{
  ℕ, ◌≡◌, refl, sym, ap, ◌∙◌, String, Bool, true, false, not, ◌&&◌, Option, none, some, List, [],
  ◌∷◌, ◌==◌, map, length, str_eq, concat, show, is_some, arith, if◌then◌else◌, get_elem?,
  get_elem?-map, option_map,
}
use mooring_line_management.Api.Http.{or_text}
use mooring_line_management.Schema.{Layout, LineRow}
use mooring_line_management.Deck.Panel.{
  DrumRow, holding, empty, Dialog, move, inspect, assign, register, Target, drum, storage,
  move_targets, assign_candidates, turn_disabled, stored_here,
}
use mooring_line_management.Deck.Panel.Moves.{
  Sent, Place, at_winch, in_store, MoveState, idle, pending, failed, PanelState, is_pending, pick,
  picked, go, step,
}

-- The caption under the panel's title.
abbrev plural : (one many : String) → ℕ → String
plural one many n = if n == 1 then one else many

unfoldable pub caption : {N : Type 0} → Place N → List LineRow → String
unfolding stored_here
caption (at_winch w) lines =
    let n = length w.drums in
    concat (
      (if str_eq w.drive_type "hydraulic" then "Hydraulic" else "Electric")
      ∷ " · "
      ∷ show n
      ∷ plural " drum" " drums" n
      ∷ [])
caption (in_store s) lines =
    let n = length (stored_here lines s.id) in
    concat (show n ∷ plural " rope" " ropes" n ∷ " stored" ∷ [])

-- The texts of a row: its tag, the rope or "empty", and the rope's side.
abbrev row_texts : DrumRow → List String
row_texts (holding d l) =
    concat ("D" ∷ show d.idx ∷ [])
    ∷ l.name
    ∷ concat ("Side " ∷ or_text l.current_side "—" ∷ [])
    ∷ []
row_texts (empty d label) = concat ("D" ∷ show d.idx ∷ []) ∷ "empty" ∷ []

-- The chip asks before it turns the line; `confirmed` is the answer. Its request is a turn without a note.
unfoldable pub chip_turns : LineRow → (turning confirmed : Bool) → Bool
unfolding turn_disabled
chip_turns l turning confirmed = not (turn_disabled l.current_side turning) && confirmed

abbrev turn_question : LineRow → String
turn_question l = concat ("Turn " ∷ l.name ∷ " to its other side?" ∷ [])

pub record PickRow : Type 0 where
  pub label : String
  pub detail : String
  pub is_disabled : Bool

pub record Picker : Type 0 where
  pub title : String
  pub error : Option String
  pub notice : Option String
  pub rows : List PickRow

abbrev pub target_row : Bool → Target → PickRow
target_row is_disabled t = record {
  label = t.label;
  detail = concat ((elim t.kind [ drum ↦ "Drum · " | storage ↦ "Storage · " ]) ∷ t.station ∷ []);
  is_disabled = is_disabled;
}

abbrev pub candidate_row : Bool → LineRow → PickRow
candidate_row is_disabled l = record {
  label = l.name;
  detail = concat (
      (if str_eq l.lifecycle_status "spare" then "Spare" else "In storage")
      ∷ " · "
      ∷ l.serial_number
      ∷ []);
  is_disabled = is_disabled;
}

-- `move.isError && …`
abbrev error_of : MoveState → Option String
error_of idle = none
error_of pending = none
error_of (failed message) = some message

abbrev notice_of : {A : Type 0} → String → List A → Option String
notice_of text [] = some text
notice_of text (x ∷ xs) = none

module _ {N : Type 0} where
  -- The picker of an open dialog, where it has one.
  unfoldable pub dialog_picker : List LineRow → Layout N → MoveState → Dialog → Option Picker
  unfolding move_targets assign_candidates
  dialog_picker lines layout m (move l) = some (record {
    title = concat ("Move " ∷ l.name ∷ []);
    error = error_of m;
    notice = notice_of "No free destinations." (move_targets l lines layout);
    rows = map (target_row (is_pending m)) (move_targets l lines layout);
  })
  dialog_picker lines layout m (assign drum_id label) = some (record {
    title = concat ("Assign rope to " ∷ label ∷ []);
    error = error_of m;
    notice =
        notice_of "No spare or stored ropes available. Use “Register here” to add a new one."
          (assign_candidates lines);
    rows = map (candidate_row (is_pending m)) (assign_candidates lines);
  })
  dialog_picker lines layout m _ = none

  unfoldable pub picker : List LineRow → Layout N → PanelState → Option Picker
  unfolding dialog_picker
  picker lines layout p = elim p.dialog [
    | none ↦ none
    | some d ↦ dialog_picker lines layout p.move d
  ]

is_enabled : Option PickRow → Bool
is_enabled none = false
is_enabled (some r) = not r.is_disabled

-- Whether a picker shows a row at a place, and the row is enabled.
unfoldable pub can_pick : Option Picker → (row : ℕ) → Bool
unfolding is_enabled
can_pick none row = false
can_pick (some q) row = is_enabled (get_elem? q.rows row)

abbrev is_sent : PanelState × Option Sent → Bool
is_sent n = is_some n.1

go-sends : (o : Option Sent) (b : Bool) (p : PanelState) → is_some (go o b p).1 ≡ is_some o && not b
unfolding go
go-sends o true p = ground arith
go-sends none false p = refl
go-sends (some s) false p = refl

enabled-map :
    {A : Type 0} (row : Bool → A → PickRow) (b : Bool) (f : A → Sent) (xs : List A) (i : ℕ)
    → ((a : A) → (row b a).is_disabled ≡ b)
    → is_some (elim (get_elem? xs i) [ none ↦ none | some a ↦ some (f a) ]) && not b
      ≡ is_enabled (get_elem? (map (row b) xs) i)
unfolding is_enabled
enabled-map row b f xs i h =
    rw (get_elem?-map (row b) xs i)
      (elim (get_elem? xs i)
        as (λ o.
          is_some (elim o [ none ↦ none | some a ↦ some (f a) ]) && not b
          ≡ is_enabled (option_map (row b) o)) [ none ↦ refl | some a ↦ sym (ap not (h a)) ])

module _ {N : Type 0} where
  picked-can_pick :
      (lines : List LineRow) (layout : Layout N) (m : MoveState) (d : Dialog) (row : ℕ)
      → is_some (picked lines layout d row) && not (is_pending m)
        ≡ can_pick (dialog_picker lines layout m d) row
  unfolding picked dialog_picker can_pick
  picked-can_pick lines layout m (move l) row =
      enabled-map target_row (is_pending m) _ (move_targets l lines layout) row (λ t. refl)
  picked-can_pick lines layout m (assign drum_id label) row =
      enabled-map candidate_row (is_pending m) _ (assign_candidates lines) row (λ l. refl)
  picked-can_pick lines layout m (inspect l) row = refl
  picked-can_pick lines layout m (register d label) row = refl

  -- A click on a row of a picker sends a move exactly if the picker shows that row and it is enabled.
  step-sends :
      (place : Place N) (lines : List LineRow) (layout : Layout N) (row : ℕ) (p : PanelState)
      → is_some (step place lines layout (pick row) p).1 ≡ can_pick (picker lines layout p) row
  unfolding step picker can_pick
  step-sends place lines layout row p =
      elim p.dialog
        as (λ o.
          is_sent (elim o [
            | none ↦ (p, none)
            | some d ↦ go (picked lines layout d row) (is_pending p.move) p
          ])
          ≡ can_pick (elim o [ none ↦ none | some d ↦ dialog_picker lines layout p.move d ]) row) [
            | none ↦ refl
            | some d ↦ go-sends _ _ p ∙ picked-can_pick lines layout p.move d row
          ]
