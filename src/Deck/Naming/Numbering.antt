-- ===== src/Deck/Naming/Numbering.antt =====
-- The counters of `renumberAuto` give each auto-named winch its rank among those before it.
use mooring_line_management.Base.{
  ℕ, suc, ◌+◌, ◌≡◌, refl, ap₂, String, ◌&&◌, some, List, [], ◌∷◌, str_eq, eq_iff, or_else, All,
  if◌then◌else◌, arith,
}
use mooring_line_management.Number.{Number}
use mooring_line_management.Schema.{Winch}
use mooring_line_management.Deck.Naming.{
  lookup, insert, key_of, auto_label, visit, renumber_from, renumber_auto,
}

lookup-insert :
    (k j : String) (v : ℕ) (m : List (String × ℕ))
    → lookup j (insert k v m) ≡ (if str_eq k j then some v else lookup j m)
unfolding lookup insert
lookup-insert k j v [] = refl
lookup-insert k j v ((i, n) ∷ m) =
    ground (arith, eq_iff k j, eq_iff i k, eq_iff i j, lookup-insert k j v m)

module _ {N : Type 0} ⦃num : Number N⦄ where
  -- The counts of auto-named winches by key, with one winch more.
  abbrev pub bump : (String → ℕ) → Winch N → String → ℕ
  bump f v k = if v.label_auto && str_eq (key_of v) k then suc (f k) else f k

  -- How many auto-named winches of the list have the key.
  unfoldable pub rank : List (Winch N) → String → ℕ
  rank [] = λ k. 0
  rank (v ∷ vs) = bump (rank vs) v

  unfoldable pub numbered_head : List (Winch N) → Winch N → Winch N
  numbered_head earlier w = record w {
    label = if w.label_auto then auto_label w (rank earlier (key_of w) + 1) else w.label;
  }

  -- Every auto-named winch is numbered by its place among those of its station and side.
  unfoldable pub numbered : List (Winch N) → List (Winch N) → List (Winch N)
  unfolding rank numbered_head
  numbered earlier [] = []
  numbered earlier (w ∷ ws) = numbered_head earlier w ∷ numbered (w ∷ earlier) ws

  Counts : List (String × ℕ) → List (Winch N) → Type 0
  Counts counters earlier = (k : String) → or_else (lookup k counters) 0 ≡ rank earlier k

  visit-numbered_head :
      (counters : List (String × ℕ)) (earlier : List (Winch N)) (w : Winch N)
      → Counts counters earlier
      → (visit counters w).0 ≡ numbered_head earlier w
  unfolding visit numbered_head Counts
  visit-numbered_head counters earlier w c = ground (arith, c (key_of w))

  visit-Counts :
      (counters : List (String × ℕ)) (earlier : List (Winch N)) (w : Winch N)
      → Counts counters earlier
      → Counts (visit counters w).1 (w ∷ earlier)
  unfolding visit Counts rank
  visit-Counts counters earlier w c k = ground (
    arith,
    c (key_of w),
    c k,
    lookup-insert (key_of w) k (or_else (lookup (key_of w) counters) 0 + 1) counters,
    eq_iff (key_of w) k,
  )

  renumber_from-numbered :
      (counters : List (String × ℕ)) (earlier ws : List (Winch N))
      → Counts counters earlier
      → renumber_from counters ws ≡ numbered earlier ws
  unfolding renumber_from numbered numbered_head
  renumber_from-numbered counters earlier [] c = refl
  renumber_from-numbered counters earlier (w ∷ ws) c =
      ap₂ ◌∷◌ (visit-numbered_head counters earlier w c) (
        renumber_from-numbered (visit counters w).1 (w ∷ earlier) ws
          (visit-Counts counters earlier w c))

  pub renumber_auto-numbered : (ws : List (Winch N)) → renumber_auto ws ≡ numbered [] ws
  unfolding renumber_auto Counts rank lookup
  renumber_auto-numbered ws = renumber_from-numbered [] [] ws (λ k. refl)

  All-numbered :
      (P : Winch N → Type 0) (earlier ws : List (Winch N))
      → ((w : Winch N) (label : String) → P w → P (record w { label = label }))
      → All P ws
      → All P (numbered earlier ws)
  unfolding numbered numbered_head
  All-numbered P earlier [] f h = tt
  All-numbered P earlier (w ∷ ws) f h = (f w _ h.0, All-numbered P (w ∷ earlier) ws f h.1)

  -- What does not depend on the name survives `renumberAuto`.
  pub All-renumber_auto :
      (P : Winch N → Type 0) (ws : List (Winch N))
      → ((w : Winch N) (label : String) → P w → P (record w { label = label }))
      → All P ws
      → All P (renumber_auto ws)
  All-renumber_auto P ws f h = rw (renumber_auto-numbered ws) (All-numbered P [] ws f h)
