-- ===== src/Register/Record/Turning.antt =====
-- When a line can be turned.
use mooring_line_management.Base.{
  ◌≡◌, ◌≢◌, ◌↔◌, refl, String, Bool, true, false, not, ◌&&◌, ◌||◌, Option, none, some, eq_iff,
  arith, Bool-cases, inl, inr,
}
use mooring_line_management.Schema.{Line}
use mooring_line_management.Register.Record.{
  side_is, no_side, not_turnable, turn_card, SideTab, not_reversible, sides, side_tracking,
  side_card,
}

-- The line lies on a side, by its name.
abbrev pub OnSide : Option String → Type 0
OnSide none = ⊥
OnSide (some s) = (s ≢ "") × (s ≢ "n/a")

abbrev on_side : Option String → Bool
on_side side = not (side_is "n/a" side || no_side side)

on_side_iff : (side : Option String) → (on_side side ≡ true) ↔ OnSide side
on_side_iff none = (λ h. cc, λ h. absurd h)
on_side_iff (some s) = ground (arith, eq_iff s "n/a", eq_iff s "")

card_iff :
    (turnable can_write is_pending : Bool) (side : Option String)
    → (((((not turnable || side_is "n/a" side) || no_side side) || not can_write) || is_pending)
        ≡ false)
      ↔ ((turnable ≡ true) × (on_side side ≡ true) × (can_write ≡ true) × (is_pending ≡ false))
card_iff turnable can_write is_pending side = ground arith

unfoldable pub both_in_use : SideTab → Bool
both_in_use not_reversible = false
both_in_use (sides due a b t) = a.in_use && b.in_use

one_side : (side : Option String) → (side_is "A" side && side_is "B" side) ≡ false
one_side none = refl
one_side (some s) = ground (arith, eq_iff s "A", eq_iff s "B", eq_iff "A" "B")

module _ {N : Type 0} where
  -- The button turns a line exactly if the line can be turned, lies on a side that is a side's name, the
  -- user may write and no turn is pending.
  pub turn_card-disabled_iff :
      (l : Line N) (can_write is_pending : Bool)
      → ((turn_card l can_write is_pending).disabled ≡ false) ↔ (
          (l.can_be_turned ≡ true)
          × OnSide l.current_side
          × (can_write ≡ true)
          × (is_pending ≡ false))
  unfolding turn_card not_turnable
  turn_card-disabled_iff l can_write is_pending =
      let (f, g) = card_iff l.can_be_turned can_write is_pending l.current_side in
      let (p, q) = on_side_iff l.current_side in
      (λ h. let (a, b, c, d) = f h in (a, p b, c, d), λ h. g (h.0, q h.1, h.2, h.3))

  -- The two cards of the tab are never both marked as in use, whatever side the API names.
  pub side_tracking-one_side :
      (locale_date : String → String) (l : Line N) (can_write is_pending : Bool)
      → both_in_use (side_tracking locale_date l can_write is_pending) ≡ false
  unfolding side_tracking side_card both_in_use
  side_tracking-one_side locale_date l can_write is_pending =
      elim (Bool-cases (side_is "n/a" l.current_side || not l.can_be_turned)) [
        | inl e ↦ rw e refl
        | inr e ↦ rw e (one_side l.current_side)
      ]
