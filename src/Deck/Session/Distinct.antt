-- ===== src/Deck/Session/Distinct.antt =====
-- No edit session gives two winches one derived name.
use mooring_line_management.Base.{subst, Option, none, some, List, All-imp}
use mooring_line_management.Number.{Number}
use mooring_line_management.Schema.{Layout}
use mooring_line_management.Deck.Naming.Labels.{
  IsStation, DistinctLabels, renumber_auto-DistinctLabels,
}
use mooring_line_management.Deck.Naming.Canonical.{renumber_auto_of_IsCanonical}
use mooring_line_management.Deck.Session.{Event, run, initial}
use mooring_line_management.Deck.Session.Draft.{OnDraft, AllBring}
use mooring_line_management.Deck.Session.Bounds.{WinchInBounds, InBounds, run-InBounds}
use mooring_line_management.Deck.Session.Names.{IsNamed, run-IsNamed}

module _ {N : Type 0} ⦃num : Number N⦄ where
  HasDistinctLabels : Layout N → Type 0
  HasDistinctLabels l = DistinctLabels l.winches

  distinct_of_named :
      (o : Option (Layout N)) → OnDraft IsNamed o → OnDraft InBounds o → OnDraft HasDistinctLabels o
  unfolding HasDistinctLabels
  distinct_of_named none h k = tt
  distinct_of_named (some l) h k = subst DistinctLabels (renumber_auto_of_IsCanonical l.winches h) (
      renumber_auto-DistinctLabels l.winches
        (All-imp WinchInBounds (λ w. IsStation w.station) l.winches (λ w b. b.station) k.0))

  -- Whatever the user does - adding, dragging, moving to the other station, renaming by hand and back,
  -- removing - no two auto-named winches of the draft ever have one name, if the layouts that the
  -- session loads are named by their places and have their items on the deck.
  pub run-DistinctLabels :
      (es : List (Event N))
      → AllBring IsNamed (λ id. Unit {0}) es
      → AllBring InBounds (λ id. Unit {0}) es
      → OnDraft (λ l. DistinctLabels l.winches) (run es initial).draft
  unfolding HasDistinctLabels
  run-DistinctLabels es h k =
      distinct_of_named (run es initial).draft (run-IsNamed es h) (run-InBounds es k)
