-- ===== src/Deck/Panel/Moves/Free.antt =====
-- What the moves of the panels' pickers go to.
use mooring_line_management.Base.{
  ℕ, ap, ◌≡◌, ◌≢◌, ◌⊎◌, inl, inr, refl, String, Bool, true, false, Option, none, some, List, [],
  ◌∷◌, All, All-imp, Memᴰ, get_elem?, get_elem?-elim, OnSome, All-get_elem?, every_of_mem,
  find-elim, none_found, mem-filter_iff, mem-sort_by_iff, All-map,
}
use mooring_line_management.Schema.{Drum, Winch, Storage, Layout, LineRow}
use mooring_line_management.Deck.Panel.{
  drum_label, line_on_drum, DrumRow, drum_row, row_dialogs, Dialog, move, inspect, assign, register,
  winch_rows, by_idx, drum_le, stored_here, is_text, move_targets, move_body, assign_candidates,
}
use mooring_line_management.Deck.Panel.Targets.{HasDrumIds, is_text_iff, move_targets_iff}
use mooring_line_management.Deck.Panel.Moves.{
  Place, at_winch, in_store, store_dialogs, idle, pending, failed, PanelState, closed, moved,
  refused, is_pending, PanelEvent, press, close, pick, answered, Sent, row_choices, pressed, picked,
  go, answer, step, run, picked_moves,
}

-- No line of the list is on the drum.
abbrev pub NoLineOn : List LineRow → String → Type 0
NoLineOn lines d = All (λ m. m.current_drum_id ≢ some d) lines

line_on_drum-NoLineOn :
    (lines : List LineRow) (id : String) → line_on_drum lines id ≡ none → NoLineOn lines id
unfolding line_on_drum
line_on_drum-NoLineOn lines id e =
    All-imp _ _ lines (λ m h. (is_text_iff m.current_drum_id id).0 h)
      (none_found (λ m. is_text m.current_drum_id id) lines e)

module _ {N : Type 0} (place : Place N) (lines : List LineRow) where
  -- A drum of the panel's winch.
  abbrev pub OfPanel : String → Type 0
  OfPanel id = (w : Winch N) × (d : Drum) × (place ≡ at_winch w) × Memᴰ d w.drums × (id ≡ d.id)

  -- A dialog is about a line of the list, or about a drum of the panel's winch that no line is on.
  pub IsOffered : Dialog → Type 0
  IsOffered (move l) = Memᴰ l lines
  IsOffered (inspect l) = Memᴰ l lines
  IsOffered (assign d label) = OfPanel d × NoLineOn lines d
  IsOffered (register d label) = OfPanel d × NoLineOn lines d

  drum_row-IsOffered :
      (label : String) (d : Drum)
      → OfPanel d.id
      → All IsOffered (row_dialogs (drum_row label lines d))
  unfolding drum_row row_dialogs line_on_drum IsOffered
  drum_row-IsOffered label d k =
      find-elim
        (λ o. All IsOffered (
          row_dialogs (elim o [
            | none ↦ DrumRow.empty d (drum_label label d)
            | some l ↦ DrumRow.holding d l
          ])))
        _ lines (λ l m. (m, (m, tt)))
        (λ e. let v = line_on_drum-NoLineOn lines d.id e in ((k, v), ((k, v), tt)))

  pressed-IsOffered :
      (ds : Option (List Dialog)) (button : ℕ)
      → OnSome (All IsOffered) ds
      → OnSome IsOffered (pressed ds button)
  pressed-IsOffered none button h = tt
  pressed-IsOffered (some ds) button h = All-get_elem? IsOffered ds button h

winch_rows-IsOffered :
    {N : Type 0} (w : Winch N) (lines : List LineRow)
    → All (All (IsOffered (at_winch w) lines)) (row_choices (at_winch w) lines)
unfolding row_choices winch_rows
winch_rows-IsOffered w lines = All-map (All (IsOffered (at_winch w) lines)) row_dialogs _ (
    All-map (λ r. All (IsOffered (at_winch w) lines) (row_dialogs r)) (drum_row w.label lines)
      (by_idx w.drums)
      (every_of_mem _ _ (λ d m.
        drum_row-IsOffered (at_winch w) lines w.label d
          (w, d, refl, (mem-sort_by_iff drum_le d w.drums).0 m, refl))))

module _ {N : Type 0} (lines : List LineRow) where
  row_choices-IsOffered :
      (place : Place N) → All (All (IsOffered place lines)) (row_choices place lines)
  unfolding row_choices stored_here IsOffered
  row_choices-IsOffered (at_winch w) = winch_rows-IsOffered w lines
  row_choices-IsOffered (in_store s) =
      All-map (All (IsOffered (in_store s) lines)) store_dialogs _
        (every_of_mem _ _ (λ l m. let n = ((mem-filter_iff _ l lines).0 m).0 in (n, (n, tt))))

module _ {N : Type 0} (place : Place N) (lines : List LineRow) (layout : Layout N) where
  -- A drum of a winch of the deck.
  abbrev pub OfDeck : String → Type 0
  OfDeck id = (w : Winch N) × (d : Drum) × Memᴰ w layout.winches × Memᴰ d w.drums × (id ≡ d.id)

  -- A move of a line of the list, onto a drum of the deck or of the panel's winch that no line of the list
  -- is on, or into a store of the deck.
  abbrev pub IsFreeMove : Sent → Type 0
  IsFreeMove (id, body) =
      ((l : LineRow) × Memᴰ l lines × (id ≡ l.id))
      × (((d : String) × (body ≡ record { to_drum_id = some d; to_storage_id = none })
            × (OfDeck d ⊎ OfPanel place lines d)
            × NoLineOn lines d)
          ⊎ ((s : Storage N) × Memᴰ s layout.storage
              × (body ≡ record { to_drum_id = none; to_storage_id = some s.id })))

  HasOffered : PanelState → Type 0
  HasOffered p = OnSome (IsOffered place lines) p.dialog

  IsRight : PanelState × Option Sent → Type 0
  IsRight n = HasOffered n.0 × OnSome IsFreeMove n.1

  go-HasOffered :
      (o : Option Sent) (b : Bool) (p : PanelState)
      → HasOffered p
      → OnSome IsFreeMove o
      → IsRight (go o b p)
  unfolding go HasOffered IsRight
  go-HasOffered o true p h k = (h, tt)
  go-HasOffered none false p h k = (h, tt)
  go-HasOffered (some s) false p h k = (h, k)

  module _ (ids : HasDrumIds layout.winches) where
    picked-IsFreeMove :
        (d : Dialog) (row : ℕ)
        → IsOffered place lines d
        → OnSome IsFreeMove (picked lines layout d row)
    unfolding picked move_body assign_candidates IsOffered
    picked-IsFreeMove (move l) row h =
        get_elem?-elim
          (λ o. OnSome IsFreeMove (elim o [ none ↦ none | some t ↦ some (l.id, move_body t) ]))
          (move_targets l lines layout) row
          (λ t m. (
            (l, h, refl),
            elim ((move_targets_iff t l lines layout ids).0 m) [
              | inl (w, d, a, b, unused, n, q) ↦
                  inl (d.id, ap move_body q, inl (w, d, a, b, refl), unused)
              | inr (s, a, n, q) ↦ inr (s, a, ap move_body q)
            ],
          ))
          tt
    picked-IsFreeMove (assign drum_id label) row h =
        get_elem?-elim
          (λ o. OnSome IsFreeMove (elim o [
            | none ↦ none
            | some l ↦ some (l.id, record { to_drum_id = some drum_id; to_storage_id = none })
          ]))
          (assign_candidates lines) row
          (λ l m.
            ((l, ((mem-filter_iff _ l lines).0 m).0, refl), inl (drum_id, refl, inr h.0, h.1)))
          tt
    picked-IsFreeMove (inspect l) row h = tt
    picked-IsFreeMove (register d label) row h = tt

    step-HasOffered :
        (e : PanelEvent) (p : PanelState) → HasOffered p → IsRight (step place lines layout e p)
    unfolding step HasOffered IsRight answer
    step-HasOffered (press row button) p h =
        elim p.dialog
          as (λ o. IsRight (elim o [
            | some d ↦ (p, none)
            | none ↦ (
              record {
                dialog = pressed (get_elem? (row_choices place lines) row) button;
                move = idle;
              },
              none,
            )
          ])) [
            | some d ↦ (h, tt)
            | none ↦ (
              pressed-IsOffered place lines _ button (
                  All-get_elem? (All (IsOffered place lines)) (row_choices place lines) row
                    (row_choices-IsOffered lines place)),
              tt,
            )
          ]
    step-HasOffered close p h = (tt, tt)
    step-HasOffered (pick row) p h =
        (elim p.dialog
            as (λ o.
              OnSome (IsOffered place lines) o
              → IsRight (elim o [
                | none ↦ (p, none)
                | some d ↦ go (picked lines layout d row) (is_pending p.move) p
              ])) [
                | some d ↦ λ k. go-HasOffered _ _ p h (picked-IsFreeMove d row k)
                | none ↦ λ k. (h, tt)
              ])
          h
    step-HasOffered (answered true a) p h =
        elim p.move as (λ m. IsRight (elim m [ pending ↦ (answer a p, none) | _ ↦ (p, none) ])) [
          | pending ↦ (
            elim a as (λ c. HasOffered (answer c p)) [ moved ↦ tt | refused status detail ↦ h ],
            tt,
          )
          | idle ↦ (h, tt)
          | failed message ↦ (h, tt)
        ]
    step-HasOffered (answered false a) p h = (h, tt)

    run_from-HasOffered :
        (es : List PanelEvent) (p : PanelState)
        → HasOffered p
        → All IsFreeMove (picked_moves place lines layout es p)
          × HasOffered (run place lines layout es p)
    unfolding picked_moves run IsRight
    run_from-HasOffered [] p h = (tt, h)
    run_from-HasOffered (e ∷ es) p h =
        let (next, k) = step-HasOffered e p h in
        let rest = picked_moves place lines layout es (step place lines layout e p).0 in
        let (free, last) = run_from-HasOffered es (step place lines layout e p).0 next in
        (
          (elim (step place lines layout e p).1
                as (λ o.
                  OnSome IsFreeMove o
                  → All IsFreeMove (elim o [ none ↦ rest | some s ↦ s ∷ rest ])) [
                    | none ↦ λ k. free
                    | some s ↦ λ k. (k, free)
                  ])
              k,
          last,
        )

    -- Whatever the user does on the panel of a winch or of a store, while the page's data stay the same:
    -- each move that the pickers "Move" and "Assign" send takes a line of the list onto a drum of the deck
    -- or of the panel's winch that no line of the list is on, or into a store of the deck; and a dialog that
    -- is open, the registration's too, is about a line of the list, or about a drum of the panel's winch
    -- that no line of the list is on. No drum's id is the empty text.
    pub picked_moves-IsFreeMove :
        (es : List PanelEvent)
        → All IsFreeMove (picked_moves place lines layout es closed)
          × OnSome (IsOffered place lines) (run place lines layout es closed).dialog
    unfolding HasOffered
    picked_moves-IsFreeMove es = run_from-HasOffered es closed tt
