-- ===== src/Register/Add/Placement.antt =====
-- A line that is registered onto a drum is a spare first, and a failed placement is reported.
use mathlib.Core.List.Memᴰ.{cases_cons}
use mooring_line_management.Base.{
  ◌≡◌, ◌≢◌, ◌↔◌, inl, inr, sym, ap, ap₂, subst, ◌∙◌, String, true, Option, some, List, [], ◌∷◌,
  Memᴰ, if_true,
}
use mooring_line_management.Schema.{LineBody}
use mooring_line_management.Api.Http.{Error, Outcome, resolved, rejected}
use mooring_line_management.Api.Hooks.{MoveBody}
use mooring_line_management.Register.Add.{
  Form, is_placing, line_body, Call, register, move, place_message, to_drum, submit,
}
use mooring_line_management.Register.Add.Shape.{
  true-ne-false, none-ne-some, some_injective, resolved_injective, rejected_injective,
  rejected-ne-resolved, refused_line, plain_line, placed_line, unplaced_line, submit-Shape,
}

module _ {N : Type 0} where
  move-ne-register : {id : String} {body : MoveBody} {b : LineBody N} → move id body ≢ register b
  move-ne-register h = cc

  line_of : Call N → String
  line_of (move id body) = id
  line_of (register b) = ""

  body_of : MoveBody → Call N → MoveBody
  body_of d (move id body) = body
  body_of d (register b) = d

  move_injective :
      {id i : String} {body b : MoveBody}
      → ◌≡◌ {A = Call N} (move id body) (move i b)
      → (id ≡ i) × (body ≡ b)
  unfolding line_of body_of
  move_injective {body = body} h = (ap line_of h, ap (body_of body) h)

  not_registered :
      {id : String} {body : MoveBody} {b : LineBody N} → ¬ Memᴰ (move id body) (register b ∷ [])
  not_registered m = elim (cases_cons m) [ inl e ↦ move-ne-register e | inr n ↦ elim n [ ] ]

  spare_of :
      (to_number : String → N) (target : Option String) (f : Form) {create : Outcome String}
      {calls : List (Call N)} {id : String} {body : MoveBody} (i d : String)
      → create ≡ resolved i
      → target ≡ some d
      → is_placing target ≡ true
      → calls ≡ register (line_body to_number target f) ∷ move i (to_drum d) ∷ []
      → Memᴰ (move id body) (register (line_body to_number target f) ∷ move i (to_drum d) ∷ [])
      → (create ≡ resolved id)
        × (calls ≡ register (line_body to_number target f) ∷ move id body ∷ [])
        × ((line_body to_number target f).lifecycle_status ≡ "spare")
        × (body.to_drum_id ≡ target)
  unfolding line_body
  spare_of to_number target f {body = body} i d c t n q m = elim (cases_cons m) [
    | inl e ↦ absurd (move-ne-register e)
    | inr k ↦ elim (cases_cons k) [
      | inl e ↦
          let (a, b) = move_injective e in
          (
            c ∙ ap resolved (sym a),
            q
                ∙ ap₂ (λ x y. register (line_body to_number target f) ∷ move x y ∷ []) (sym a)
                    (sym b),
            if_true _ _ n,
            ap (λ y. y.to_drum_id) b ∙ sym t,
          )
      | inr z ↦ elim z [ ]
    ]
  ]

  -- Every move that the dialog asks for is of the line that was just registered, after its
  -- registration, which asked for a spare, and onto the drum that the dialog was opened for: a failed
  -- move leaves a spare.
  pub submit-spare_first :
      (to_number : String → N) (target : Option String) (f : Form) (create : Outcome String)
      (place : String → Outcome (Unit {0})) (id : String) (body : MoveBody)
      → Memᴰ (move id body) (submit to_number target f create place).calls
      → (create ≡ resolved id)
        × ((submit to_number target f create place).calls
            ≡ register (line_body to_number target f) ∷ move id body ∷ [])
        × ((line_body to_number target f).lifecycle_status ≡ "spare")
        × (body.to_drum_id ≡ target)
  submit-spare_first to_number target f create place id body m =
      elim (submit-Shape to_number target f create place) [
        | refused_line e c k p q ↦ absurd (not_registered (subst (Memᴰ _) q m))
        | plain_line i c n k p q ↦ absurd (not_registered (subst (Memᴰ _) q m))
        | placed_line i d c t n o k p q ↦
            spare_of to_number target f i d c t n q (subst (Memᴰ _) q m)
        | unplaced_line i d e c t n o k p q ↦
            spare_of to_number target f i d c t n q (subst (Memᴰ _) q m)
      ]

  -- The dialog reports a failed placement exactly if the line was registered for a drum and the move was
  -- refused, in the move's own words where it has some; it then stays open.
  pub submit-place_err_iff :
      (to_number : String → N) (target : Option String) (f : Form) (create : Outcome String)
      (place : String → Outcome (Unit {0})) (text : String)
      → ((submit to_number target f create place).place_err ≡ some text) ↔ (
          (id : String) × (e : Error) × (create ≡ resolved id)
          × (is_placing target ≡ true)
          × (place id ≡ rejected e)
          × (text ≡ place_message e))
  submit-place_err_iff to_number target f create place text =
      elim (submit-Shape to_number target f create place) [
        | refused_line e c k p q ↦ (
          λ h. absurd (none-ne-some (sym p ∙ h)),
          λ h. absurd (rejected-ne-resolved (sym c ∙ h.2)),
        )
        | plain_line id c n k p q ↦
            (λ h. absurd (none-ne-some (sym p ∙ h)), λ h. absurd (true-ne-false (sym h.3 ∙ n)))
        | placed_line id d c t n o k p q ↦ (
          λ h. absurd (none-ne-some (sym p ∙ h)),
          λ h.
              absurd
                (rejected-ne-resolved (sym h.4 ∙ ap place (resolved_injective (sym h.2 ∙ c)) ∙ o)),
        )
        | unplaced_line id d e c t n o k p q ↦ (
          λ h. (id, e, c, n, o, some_injective (sym h ∙ p)),
          λ h.
              p
              ∙ ap some (
                  ap place_message
                    (rejected_injective (sym o ∙ ap place (resolved_injective (sym c ∙ h.2)) ∙ h.4))
                  ∙ sym h.5),
        )
      ]
