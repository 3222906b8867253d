-- ===== src/Deck/Naming/Canonical.antt =====
-- Lists of winches on which `renumberAuto` has nothing left to do.
use mooring_line_management.Base.{
  ℕ, ◌+◌, ◌≡◌, refl, sym, ap, ap₂, ◌∙◌, subst, String, Bool, true, false, ◌&&◌, List, [], ◌∷◌,
  str_eq, concat, show, suc, to_upper_case, update_first, if◌then◌else◌, if_true, if_false,
  Bool-cases, inl, inr,
}
use mooring_line_management.Number.{Number}
use mooring_line_management.Schema.{Winch}
use mooring_line_management.Deck.Naming.{letter, side_of, key_of, auto_label, renumber_auto}
use mooring_line_management.Deck.Naming.Numbering.{
  bump, rank, numbered_head, numbered, renumber_auto-numbered,
}

module _ {N : Type 0} ⦃num : Number N⦄ where
  -- Each auto-named winch has the name that its place gives it; `counts` is what stands before.
  abbrev pub CanonicalFrom : (String → ℕ) → List (Winch N) → Type 0
  CanonicalFrom counts [] = Unit {0}
  CanonicalFrom counts (w ∷ ws) =
      (w.label_auto ≡ true → w.label ≡ auto_label w (counts (key_of w) + 1))
      × CanonicalFrom (bump counts w) ws

  abbrev pub IsCanonical : List (Winch N) → Type 0
  IsCanonical ws = CanonicalFrom (λ k. 0) ws

  numbered-CanonicalFrom :
      (earlier ws : List (Winch N)) → CanonicalFrom (rank earlier) (numbered earlier ws)
  unfolding numbered numbered_head key_of auto_label rank
  numbered-CanonicalFrom earlier [] = tt
  numbered-CanonicalFrom earlier (w ∷ ws) =
      (λ h. if_true _ _ h, numbered-CanonicalFrom (w ∷ earlier) ws)

  pub renumber_auto-IsCanonical : (ws : List (Winch N)) → IsCanonical (renumber_auto ws)
  unfolding rank
  renumber_auto-IsCanonical ws = rw (renumber_auto-numbered ws) (numbered-CanonicalFrom [] ws)

  numbered_head_of_Canonical :
      (earlier : List (Winch N)) (w : Winch N)
      → (w.label_auto ≡ true → w.label ≡ auto_label w (rank earlier (key_of w) + 1))
      → numbered_head earlier w ≡ w
  unfolding numbered_head
  numbered_head_of_Canonical earlier w h =
      ap {B = Winch N} (λ l. record w { label = l })
        (elim (Bool-cases w.label_auto) [
          | inl e ↦ if_true _ _ e ∙ sym (h e)
          | inr e ↦ if_false _ _ e
        ])

  numbered_of_CanonicalFrom :
      (earlier ws : List (Winch N)) → CanonicalFrom (rank earlier) ws → numbered earlier ws ≡ ws
  unfolding numbered rank
  numbered_of_CanonicalFrom earlier [] h = refl
  numbered_of_CanonicalFrom earlier (w ∷ ws) h =
      ap₂ ◌∷◌ (numbered_head_of_Canonical earlier w h.0)
        (numbered_of_CanonicalFrom (w ∷ earlier) ws h.1)

  pub renumber_auto_of_IsCanonical : (ws : List (Winch N)) → IsCanonical ws → renumber_auto ws ≡ ws
  unfolding rank
  renumber_auto_of_IsCanonical ws h = renumber_auto-numbered ws ∙ numbered_of_CanonicalFrom [] ws h

  -- A second `renumberAuto` changes nothing.
  pub renumber_auto_idem :
      (ws : List (Winch N)) → renumber_auto (renumber_auto ws) ≡ renumber_auto ws
  renumber_auto_idem ws =
      renumber_auto_of_IsCanonical (renumber_auto ws) (renumber_auto-IsCanonical ws)

  -- A change of other members than the four that a name is made of.
  pub record SameName (v w : Winch N) : Type 0 where
    pub label : v.label ≡ w.label
    pub label_auto : v.label_auto ≡ w.label_auto
    pub station : v.station ≡ w.station
    pub x : v.x ≡ w.x

  key_of-SameName : (v w : Winch N) → SameName v w → key_of v ≡ key_of w
  unfolding key_of
  key_of-SameName v w s = ap₂ (λ a b. concat (a ∷ letter (side_of b) ∷ [])) s.station s.x

  auto_label-SameName : (v w : Winch N) (n : ℕ) → SameName v w → auto_label v n ≡ auto_label w n
  unfolding auto_label
  auto_label-SameName v w n s =
      ap₂ (λ a b. concat (to_upper_case a ∷ "-" ∷ letter (side_of b) ∷ show n ∷ [])) s.station s.x

  bump-SameName : (f : String → ℕ) (v w : Winch N) → SameName v w → bump f v ≡ bump f w
  bump-SameName f v w s =
      ap₂ {A = Bool} {B = String} (λ b k' k. if b && str_eq k' k then suc (f k) else f k)
        s.label_auto (key_of-SameName v w s)

  CanonicalFrom-cons :
      (counts : String → ℕ) (v w : Winch N) (ws : List (Winch N))
      → SameName v w
      → CanonicalFrom counts (w ∷ ws)
      → CanonicalFrom counts (v ∷ ws)
  CanonicalFrom-cons counts v w ws s h = (
    λ auto.
        s.label
        ∙ h.0 (sym s.label_auto ∙ auto)
        ∙ ap (λ k. auto_label w (counts k + 1)) (sym (key_of-SameName v w s))
        ∙ sym (auto_label-SameName v w _ s),
    subst (λ f. CanonicalFrom f ws) (sym (bump-SameName counts v w s)) h.1,
  )

  pub update_first-CanonicalFrom :
      (counts : String → ℕ) (p : Winch N → Bool) (f : Winch N → Winch N) (ws : List (Winch N))
      → ((w : Winch N) → SameName (f w) w)
      → CanonicalFrom counts ws
      → CanonicalFrom counts (update_first p f ws)
  update_first-CanonicalFrom counts p f [] s h = tt
  update_first-CanonicalFrom counts p f (w ∷ ws) s h =
      elim (p w) as (λ b. CanonicalFrom counts (if b then f w ∷ ws else w ∷ update_first p f ws)) [
        | true ↦ CanonicalFrom-cons counts (f w) w ws (s w) h
        | false ↦ (h.0, update_first-CanonicalFrom (bump counts w) p f ws s h.1)
      ]
