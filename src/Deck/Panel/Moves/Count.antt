-- ===== src/Deck/Panel/Moves/Count.antt =====
-- How many moves the panels' pickers send.
use mooring_line_management.Base.{
  ℕ, ◌+◌, ◌≤◌, ◌≡◌, true, false, Option, none, some, List, [], ◌∷◌, length, arith, get_elem?,
}
use mooring_line_management.Schema.{Layout, LineRow}
use mooring_line_management.Deck.Panel.{Dialog}
use mooring_line_management.Deck.Panel.Moves.{
  Place, MoveState, idle, pending, failed, PanelState, closed, moved, refused, is_pending,
  PanelEvent, press, close, pick, answered, Sent, row_choices, pressed, picked, go, answer, step,
  picked_moves,
}

-- The presses of a row's button, and the refusals.
abbrev weight : PanelEvent → ℕ
weight (press row button) = 1
weight (answered true (refused status detail)) = 1
weight _ = 0

abbrev pub openings_and_refusals : List PanelEvent → ℕ
openings_and_refusals [] = 0
openings_and_refusals (e ∷ es) = weight e + openings_and_refusals es

abbrev sends : Option Sent → ℕ
sends none = 0
sends (some s) = 1

-- Whether a move can be sent before the next opening or refusal.
ready : Option Dialog → MoveState → ℕ
ready none m = 0
ready (some d) idle = 1
ready (some d) pending = 0
ready (some d) (failed message) = 1

abbrev Pays : PanelState → PanelState × Option Sent → ℕ → Type 0
Pays p n k = sends n.1 + ready n.0.dialog n.0.move ≤ ready p.dialog p.move + k

ready-le : (d : Option Dialog) (m : MoveState) → ready d m ≤ 1
unfolding ready
ready-le none m = omega arith
ready-le (some d) idle = omega arith
ready-le (some d) pending = omega arith
ready-le (some d) (failed message) = omega arith

go-Pays :
    (o : Option Sent) (d : Dialog) (m : MoveState)
    → Pays
        (record { dialog = some d; move = m })
        (go o (is_pending m) (record { dialog = some d; move = m }))
        0
unfolding go ready
go-Pays none d idle = omega arith
go-Pays none d pending = omega arith
go-Pays none d (failed message) = omega arith
go-Pays (some s) d idle = omega arith
go-Pays (some s) d pending = omega arith
go-Pays (some s) d (failed message) = omega arith

length-sends :
    (o : Option Sent) (rest : List Sent)
    → length (elim o [ none ↦ rest | some s ↦ s ∷ rest ]) ≡ sends o + length rest
length-sends none rest = omega arith
length-sends (some s) rest = omega arith

module _ {N : Type 0} (place : Place N) (lines : List LineRow) (layout : Layout N) where
  step-Pays :
      (e : PanelEvent) (d : Option Dialog) (m : MoveState)
      → Pays
          (record { dialog = d; move = m })
          (step place lines layout e (record { dialog = d; move = m }))
          (weight e)
  unfolding step ready answer
  step-Pays (press row button) none m =
      let h = ready-le (pressed (get_elem? (row_choices place lines) row) button) idle in
      omega arith
  step-Pays (press row button) (some d) m = omega arith
  step-Pays close d m = omega arith
  step-Pays (pick row) none m = omega arith
  step-Pays (pick row) (some d) m = go-Pays (picked lines layout d row) d m
  step-Pays (answered true moved) d pending = omega arith
  step-Pays (answered true (refused status detail)) none pending = omega arith
  step-Pays (answered true (refused status detail)) (some d) pending = omega arith
  step-Pays (answered true a) d idle = omega arith
  step-Pays (answered true a) d (failed message) = omega arith
  step-Pays (answered false a) d m = omega arith

  picked_from-length :
      (es : List PanelEvent) (p : PanelState)
      → length (picked_moves place lines layout es p)
        ≤ ready p.dialog p.move + openings_and_refusals es
  unfolding picked_moves
  picked_from-length [] p = omega arith
  picked_from-length (e ∷ es) p =
      let h = step-Pays e p.dialog p.move in
      let k = picked_from-length es (step place lines layout e p).0 in
      let q =
        length-sends (step place lines layout e p).1
          (picked_moves place lines layout es (step place lines layout e p).0) in
      omega arith

  -- The pickers of a panel, "Move" and "Assign", send at most one move for each press of a row's button
  -- and for each refusal of a move.
  pub picked_moves-length :
      (es : List PanelEvent)
      → length (picked_moves place lines layout es closed) ≤ openings_and_refusals es
  unfolding ready
  picked_moves-length es = let h = picked_from-length es closed in omega arith
