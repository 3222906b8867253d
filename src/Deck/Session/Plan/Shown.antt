-- ===== src/Deck/Session/Plan/Shown.antt =====
-- Naming does not change the plan of a winch, and depends on nothing but the plans.
use mooring_line_management.Base.{
  ◌+◌, ◌≡◌, refl, sym, ap, ap₂, ◌∙◌, true, false, none, some, List, [], ◌∷◌, map, if◌then◌else◌,
}
use mooring_line_management.Number.{Number}
use mooring_line_management.Schema.{Winch, Layout}
use mooring_line_management.Deck.Naming.{key_of, auto_label, renumber_auto}
use mooring_line_management.Deck.Naming.Numbering.{
  bump, rank, numbered_head, numbered, renumber_auto-numbered,
}
use mooring_line_management.Deck.Naming.Canonical.{IsCanonical, renumber_auto_of_IsCanonical}
use mooring_line_management.Deck.Session.Plan.{PlanWinch, plan_of, plan_layout, shown, shown_layout}

module _ {N : Type 0} ⦃num : Number N⦄ where
  plan_of-numbered_head :
      (earlier : List (Winch N)) (w : Winch N) → plan_of (numbered_head earlier w) ≡ plan_of w
  unfolding plan_of numbered_head
  plan_of-numbered_head earlier w =
      ap {B = PlanWinch N} (λ o. record (plan_of w) { name = o })
        (elim w.label_auto
          as (λ b.
            (if b
              then none
              else some (if b then auto_label w (rank earlier (key_of w) + 1) else w.label))
            ≡ (if b then none else some w.label)) [ true ↦ refl | false ↦ refl ])

  map-plan_of-numbered :
      (earlier ws : List (Winch N)) → map plan_of (numbered earlier ws) ≡ map plan_of ws
  unfolding numbered
  map-plan_of-numbered earlier [] = refl
  map-plan_of-numbered earlier (w ∷ ws) =
      ap₂ ◌∷◌ (plan_of-numbered_head earlier w) (map-plan_of-numbered (w ∷ earlier) ws)

  pub map-plan_of-renumber_auto :
      (ws : List (Winch N)) → map plan_of (renumber_auto ws) ≡ map plan_of ws
  map-plan_of-renumber_auto ws =
      ap (map plan_of) (renumber_auto-numbered ws) ∙ map-plan_of-numbered [] ws

  -- The winch without a name that its place gives.
  unnamed : Winch N → Winch N
  unnamed w = record w { label = if w.label_auto then "" else w.label }

  shown-plan_of : (w : Winch N) → shown (plan_of w) ≡ unnamed w
  unfolding shown plan_of unnamed
  shown-plan_of w =
      elim w.label_auto
        as (λ b.
          shown (plan_of (record w { label_auto = b })) ≡ unnamed (record w { label_auto = b })) [
            | true ↦ refl
            | false ↦ refl
          ]

  rank-unnamed : (earlier : List (Winch N)) → rank (map unnamed earlier) ≡ rank earlier
  unfolding rank unnamed key_of
  rank-unnamed [] = refl
  rank-unnamed (w ∷ ws) = ap (λ f. bump f w) (rank-unnamed ws)

  numbered_head-unnamed :
      (earlier : List (Winch N)) (w : Winch N)
      → numbered_head (map unnamed earlier) (unnamed w) ≡ numbered_head earlier w
  unfolding numbered_head unnamed key_of auto_label
  numbered_head-unnamed earlier w = rw (rank-unnamed earlier) (
      ap {B = Winch N} (λ l. record w { label = l })
        (elim w.label_auto
          as (λ b.
            (if b then auto_label w (rank earlier (key_of w) + 1) else if b then "" else w.label)
            ≡ (if b then auto_label w (rank earlier (key_of w) + 1) else w.label)) [
              | true ↦ refl
              | false ↦ refl
            ]))

  numbered-unnamed :
      (earlier ws : List (Winch N))
      → numbered (map unnamed earlier) (map unnamed ws) ≡ numbered earlier ws
  unfolding numbered
  numbered-unnamed earlier [] = refl
  numbered-unnamed earlier (w ∷ ws) =
      ap₂ ◌∷◌ (numbered_head-unnamed earlier w) (numbered-unnamed (w ∷ earlier) ws)

  map-shown-plan_of : (ws : List (Winch N)) → map shown (map plan_of ws) ≡ map unnamed ws
  map-shown-plan_of [] = refl
  map-shown-plan_of (w ∷ ws) = ap₂ ◌∷◌ (shown-plan_of w) (map-shown-plan_of ws)

  -- A layout whose derived names are those of the places is the one that its plan shows.
  pub shown_layout-plan_layout :
      (l : Layout N) → IsCanonical l.winches → shown_layout (plan_layout l) ≡ l
  unfolding shown_layout plan_layout
  shown_layout-plan_layout l h =
      ap (λ ws. record l { winches = ws })
        (ap renumber_auto (map-shown-plan_of l.winches)
          ∙ renumber_auto-numbered (map unnamed l.winches)
          ∙ numbered-unnamed [] l.winches
          ∙ sym (renumber_auto-numbered l.winches)
          ∙ renumber_auto_of_IsCanonical l.winches h)
