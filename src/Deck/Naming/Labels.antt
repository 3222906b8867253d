-- ===== src/Deck/Naming/Labels.antt =====
-- No two derived names are equal, on a deck whose stations are the two that the API knows.
use Prim.Native.String.{count}
use text.Mathlib.TextLemmas.{append_inj, append_cancel_left, append_cancel_right}
use mooring_line_management.Base.{
  ℕ, suc, ◌+◌, ◌<◌, ◌≤◌, ◌≡◌, ◌≢◌, refl, sym, ap, ap₂, ◌∙◌, String, true, List, [], ◌∷◌, str_eq,
  eq_iff, eq_refl, concat, show-injective, to_upper_case, if◌then◌else◌, if_true, arith, inl, inr,
  ◌⊎◌, All, All-imp, All-and,
}
use mooring_line_management.Number.{Number}
use mooring_line_management.Schema.{Winch}
use mooring_line_management.Deck.Naming.{
  Side, port, starboard, center, letter, side_of, key_of, auto_label, renumber_auto,
}
use mooring_line_management.Deck.Naming.Numbering.{
  rank, numbered_head, numbered, renumber_auto-numbered,
}

side_from : String → Side
side_from s = if str_eq s "P" then port else if str_eq s "S" then starboard else center

side_from-letter : (s : Side) → side_from (letter s) ≡ s
unfolding side_from
side_from-letter port = refl
side_from-letter starboard = refl
side_from-letter center = refl

letter-injective : (s t : Side) → letter s ≡ letter t → s ≡ t
letter-injective s t e = sym (side_from-letter s) ∙ ap side_from e ∙ side_from-letter t

count-letter : (s : Side) → count (letter s) ≡ 1
count-letter port = refl
count-letter starboard = refl
count-letter center = refl

abbrev pub IsStation : String → Type 0
IsStation s = (s ≡ "fwd") ⊎ (s ≡ "aft")

count-to_upper_case : (s : String) → IsStation s → count (to_upper_case s) ≡ 3
unfolding to_upper_case
count-to_upper_case s (inl e) = rw e
count-to_upper_case s (inr e) = rw e

fwd≢aft : ◌≢◌ {A = String} "FWD" "AFT"
fwd≢aft = ground (arith, eq_iff "FWD" "AFT")

to_upper_case-injective :
    (s t : String) → IsStation s → IsStation t → to_upper_case s ≡ to_upper_case t → s ≡ t
unfolding to_upper_case
to_upper_case-injective s t (inl a) (inl b) e = a ∙ sym b
to_upper_case-injective s t (inl a) (inr b) e = absurd (fwd≢aft (rw (a, b) at e))
to_upper_case-injective s t (inr a) (inl b) e = absurd (fwd≢aft (rw (a, b) at (sym e)))
to_upper_case-injective s t (inr a) (inr b) e = a ∙ sym b

module _ {N : Type 0} ⦃num : Number N⦄ where
  auto_label-injective :
      (v w : Winch N) (m n : ℕ)
      → IsStation v.station
      → IsStation w.station
      → auto_label v m ≡ auto_label w n
      → (key_of v ≡ key_of w) × (m ≡ n)
  unfolding auto_label key_of
  auto_label-injective v w m n a b e =
      let (stations, rest) =
        append_inj e (count-to_upper_case v.station a ∙ sym (count-to_upper_case w.station b)) in
      let (sides, numbers) =
        append_inj (append_cancel_left "-" _ _ rest)
          (count-letter (side_of v.x) ∙ sym (count-letter (side_of w.x))) in
      (
        ap₂ (λ s t. concat (s ∷ t ∷ [])) (to_upper_case-injective v.station w.station a b stations)
            sides,
        show-injective m n (append_cancel_right _ _ "" numbers),
      )

  -- An auto-named winch has a name whose number is above the rank of its key.
  abbrev Above : List (Winch N) → Winch N → Type 0
  Above earlier v =
      v.label_auto ≡ true → (n : ℕ) × (v.label ≡ auto_label v n) × (rank earlier (key_of v) < n)

  rank-cons : (k : String) (w : Winch N) (vs : List (Winch N)) → rank vs k ≤ rank (w ∷ vs) k
  unfolding rank
  rank-cons k w vs = ground arith

  rank_self :
      (vs : List (Winch N)) (w : Winch N)
      → w.label_auto ≡ true
      → rank (w ∷ vs) (key_of w) ≡ suc (rank vs (key_of w))
  unfolding rank
  rank_self vs w h = ground (arith, eq_refl (key_of w))

  numbered_head-Above :
      (earlier : List (Winch N)) (w : Winch N) → Above earlier (numbered_head earlier w)
  unfolding numbered_head auto_label key_of
  numbered_head-Above earlier w h = (rank earlier (key_of w) + 1, rw h, omega arith)

  numbered-Above : (earlier ws : List (Winch N)) → All (Above earlier) (numbered earlier ws)
  unfolding numbered
  numbered-Above earlier [] = tt
  numbered-Above earlier (w ∷ ws) = (
    numbered_head-Above earlier w,
    All-imp _ _ (numbered (w ∷ earlier) ws)
        (λ v above h.
          let (n, named, more) = above h in
          (n, named, omega (arith, rank-cons (key_of v) w earlier)))
        (numbered-Above (w ∷ earlier) ws),
  )

  abbrev pub KnownStations : List (Winch N) → Type 0
  KnownStations ws = All (λ w. IsStation w.station) ws

  abbrev pub DistinctLabels : List (Winch N) → Type 0
  DistinctLabels [] = Unit {0}
  DistinctLabels (w ∷ ws) =
      All (λ v. w.label_auto ≡ true → v.label_auto ≡ true → w.label ≢ v.label) ws
      × DistinctLabels ws

  numbered-KnownStations :
      (earlier ws : List (Winch N)) → KnownStations ws → KnownStations (numbered earlier ws)
  unfolding numbered numbered_head
  numbered-KnownStations earlier [] k = tt
  numbered-KnownStations earlier (w ∷ ws) k = (k.0, numbered-KnownStations (w ∷ earlier) ws k.1)

  numbered_head-ne :
      (earlier : List (Winch N)) (w v : Winch N)
      → IsStation w.station
      → IsStation v.station
      → Above (w ∷ earlier) v
      → (numbered_head earlier w).label_auto ≡ true
      → v.label_auto ≡ true
      → (numbered_head earlier w).label ≢ v.label
  unfolding numbered_head
  numbered_head-ne earlier w v a b above h k e =
      let (n, named, more) = above k in
      let (keys, numbers) =
        auto_label-injective w v (rank earlier (key_of w) + 1) n a b
          (sym (if_true _ _ h) ∙ e ∙ named) in
      omega (arith, numbers, rank_self earlier w h, ap (λ k'. rank (w ∷ earlier) k') keys, more)

  numbered-DistinctLabels :
      (earlier ws : List (Winch N)) → KnownStations ws → DistinctLabels (numbered earlier ws)
  unfolding numbered
  numbered-DistinctLabels earlier [] k = tt
  numbered-DistinctLabels earlier (w ∷ ws) k = (
    All-imp _ _ (numbered (w ∷ earlier) ws) (λ v h. numbered_head-ne earlier w v k.0 h.0 h.1)
        (All-and _ _ (numbered (w ∷ earlier) ws) (numbered-KnownStations (w ∷ earlier) ws k.1)
          (numbered-Above (w ∷ earlier) ws)),
    numbered-DistinctLabels (w ∷ earlier) ws k.1,
  )

  -- After `renumberAuto` no two auto-named winches of the vessel have one name, whatever their
  -- positions, if each stands on the forward or the aft station.
  pub renumber_auto-DistinctLabels :
      (ws : List (Winch N)) → KnownStations ws → DistinctLabels (renumber_auto ws)
  renumber_auto-DistinctLabels ws k =
      rw (renumber_auto-numbered ws) (numbered-DistinctLabels [] ws k)
