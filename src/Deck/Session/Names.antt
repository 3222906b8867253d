-- ===== src/Deck/Session/Names.antt =====
-- The derived names of a draft, throughout an edit session.
use mooring_line_management.Base.{
  ◌≡◌, refl, String, Bool, true, false, ◌||◌, some, List, is_some, find, update_first,
  if◌then◌else◌,
}
use mooring_line_management.Number.{Number}
use mooring_line_management.Schema.{Winch, Layout}
use mooring_line_management.Deck.Naming.{renumber_auto}
use mooring_line_management.Deck.Naming.Canonical.{
  IsCanonical, SameName, renumber_auto-IsCanonical, update_first-CanonicalFrom,
}
use mooring_line_management.Deck.Layout.{
  Kind, winch, storage, winch_is, to_norm, move_kind, move_item, add_winch, add_storage,
  assign_winch, update_winch, update_storage, remove,
}
use mooring_line_management.Deck.Session.{
  WinchChange, use_auto, rename, winch_patch, Event, run, initial,
}
use mooring_line_management.Deck.Session.Draft.{OnDraft, AllBring, IsKept, run-OnDraft}

module _ {N : Type 0} ⦃num : Number N⦄ where
  abbrev pub IsNamed : Layout N → Type 0
  IsNamed l = IsCanonical l.winches

  move_kind-IsNamed :
      (k : Kind) (id : String) (at : N × N) (l : Layout N)
      → IsNamed l
      → IsNamed (move_kind k id at l)
  unfolding move_kind
  move_kind-IsNamed winch id (x, y) l h = renumber_auto-IsCanonical _
  move_kind-IsNamed storage id (x, y) l h = h

  -- A change that does not derive the names again leaves all that they are made of.
  assign_winch-SameName :
      (w v : Winch N) (c : WinchChange)
      → (is_some (winch_patch w c).station || is_some (winch_patch w c).label_auto) ≡ false
      → SameName (assign_winch (winch_patch w c) v) v
  unfolding assign_winch winch_patch
  assign_winch-SameName w v use_auto e = cc
  assign_winch-SameName w v (rename text) e = cc
  assign_winch-SameName w v (WinchChange.set_station s) e = cc
  assign_winch-SameName w v _ e = record {
    label = refl;
    label_auto = refl;
    station = refl;
    x = refl;
  }

  update_winch-IsNamed :
      (key : String) (w : Winch N) (c : WinchChange) (l : Layout N)
      → find (winch_is key) l.winches ≡ some w
      → IsNamed l
      → IsNamed (update_winch key (winch_patch w c) l)
  unfolding update_winch
  update_winch-IsNamed key w c l found h =
      rw found (go (is_some (winch_patch w c).station || is_some (winch_patch w c).label_auto) refl)
    where
      next : List (Winch N)
      next = update_first (winch_is key) (assign_winch (winch_patch w c)) l.winches

      go :
          (b : Bool)
          → (is_some (winch_patch w c).station || is_some (winch_patch w c).label_auto) ≡ b
          → IsCanonical (if b then renumber_auto next else next)
      go true e = renumber_auto-IsCanonical next
      go false e =
          update_first-CanonicalFrom _ (winch_is key) _ l.winches
            (λ v. assign_winch-SameName w v c e) h

  IsNamed-IsKept : IsKept IsNamed (λ id. Unit {0})
  unfolding move_item add_winch add_storage update_storage remove
  IsNamed-IsKept = record {
    move_item = λ d at l h. move_kind-IsNamed d.kind d.id (to_norm at) l h;
    add_winch = λ id s l q h. renumber_auto-IsCanonical _;
    add_storage = λ id s l q h. h;
    update_winch = update_winch-IsNamed;
    update_storage = λ key c l h. h;
    remove = λ key l h. renumber_auto-IsCanonical _;
  }

  -- Through every edit, each auto-named winch of the draft has the name that its place gives it, if
  -- that holds of each layout from which the session starts or resets its draft.
  pub run-IsNamed :
      (es : List (Event N))
      → AllBring IsNamed (λ id. Unit {0}) es
      → OnDraft IsNamed (run es initial).draft
  unfolding initial
  run-IsNamed es b = run-OnDraft IsNamed _ IsNamed-IsKept es initial b tt
