-- ===== src/Deck/View.antt =====
-- What the deck page shows, of web/src/features/deck/DeckPage.tsx: the symbols on the map and the panel
-- beside it; and the boxes and marks of the symbols, of web/src/features/deck/symbols.tsx.
use mooring_line_management.Base.{
  ℕ, ◌+◌, ◌-◌, ◌*◌, String, Option, none, some, List, [], filter, find, str_eq, truthy,
  if◌then◌else◌,
}
use mooring_line_management.Schema.{Winch, Storage, Layout}
use mooring_line_management.Format.{cond_class}
use mooring_line_management.Deck.Layout.{station_text}
use mooring_line_management.Deck.Session.{Page, edit_winch, edit_storage, is_selected}

pub data Panel (N : Type 0) : Type 0 where
  winch_editor : Winch N → Panel N
  storage_editor : Storage N → Panel N
  edit_hint view_hint : Panel N
  winch_panel : Winch N → Panel N
  storage_panel : Storage N → Panel N

module _ {N : Type 0} where
  -- `edit ? draft : layout`
  unfoldable pub active : Page N → (layout : Option (Layout N)) → Option (Layout N)
  active p layout = if p.edit then p.draft else layout

  unfoldable pub shown_winches : Page N → (layout : Option (Layout N)) → List (Winch N)
  unfolding active
  shown_winches p layout = elim (active p layout) [
    | none ↦ []
    | some l ↦ filter (λ w. str_eq w.station (station_text p.station)) l.winches
  ]

  unfoldable pub shown_storage : Page N → (layout : Option (Layout N)) → List (Storage N)
  unfolding active
  shown_storage p layout = elim (active p layout) [
    | none ↦ []
    | some l ↦ filter (λ s. str_eq s.station (station_text p.station)) l.storage
  ]

  editor : Option (Winch N) → Option (Storage N) → Panel N
  editor (some w) s = winch_editor w
  editor none (some s) = storage_editor s
  editor none none = edit_hint

  -- `selWinch` and `selStorage` are looked for in the query's layout.
  viewer : Option String → Option (Layout N) → (vessel_id : Option String) → Panel N
  viewer sel none vessel_id = view_hint
  viewer sel (some l) none = view_hint
  viewer sel (some l) (some id) =
      if truthy id
      then elim (find (λ w. is_selected sel w.id) l.winches) [
        | some w ↦ winch_panel w
        | none ↦ elim (find (λ s. is_selected sel s.id) l.storage) [
          | some s ↦ storage_panel s
          | none ↦ view_hint
        ]
      ]
      else view_hint

  unfoldable pub panel :
      Page N → (layout : Option (Layout N)) → (vessel_id : Option String) → Panel N
  unfolding editor viewer edit_winch edit_storage
  panel p layout vessel_id =
      if p.edit then editor (edit_winch p) (edit_storage p) else viewer p.sel_key layout vessel_id

  -- `winchBox`: the width of the box, its height, and the width of the drums in it,
  -- for a winch of at least one drum.
  unfoldable pub winch_box : Winch N → ℕ × ℕ × ℕ
  winch_box w = let inner = w.drum_count * 28 + (w.drum_count - 1) * 5 in (inner + 22, 64, inner)

-- `dotColor`
unfoldable pub dot_color : Option String → String
unfolding cond_class
dot_color status =
    let c = cond_class status in
    if str_eq c "good"
    then "var(--good)"
    else if str_eq c "monitor"
    then "var(--monitor)"
    else if str_eq c "action"
    then "var(--action)"
    else "var(--border)"

pub data Mark : Type 0 where
  circle diamond triangle : Mark

-- The shape of `StatusMark`.
unfoldable pub status_mark : Option String → Mark
unfolding cond_class
status_mark status =
    let c = cond_class status in
    if str_eq c "monitor" then diamond else if str_eq c "action" then triangle else circle
