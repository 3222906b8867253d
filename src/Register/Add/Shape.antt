-- ===== src/Register/Add/Shape.antt =====
-- The four ways a submission of the registration dialog goes.

use mooring_line_management.Base.{
  ◌≡◌, ◌≢◌, inl, inr, refl, sym, subst, String, true, false, Option, none, some, [], ◌∷◌, truthy,
  Bool-cases, if_true, if_false,
}
use mooring_line_management.Api.Http.{Error, Outcome, resolved, rejected}
use mooring_line_management.Register.Add.{
  Form, is_placing, line_body, register, move, Submitted, place_message, to_drum, placed,
  registered, submit,
}

pub true-ne-false : true ≢ false
true-ne-false h = cc

pub none-ne-some : {A : Type 0} {a : A} → none ≢ some a
none-ne-some h = cc

pub some_injective : {A : Type 0} {a b : A} → some a ≡ some b → a ≡ b
some_injective h = cc

pub resolved_injective : {A : Type 0} {a b : A} → resolved a ≡ resolved b → a ≡ b
resolved_injective h = cc

pub rejected_injective :
    {A : Type 0} {e f : Error} → ◌≡◌ {A = Outcome A} (rejected e) (rejected f) → e ≡ f
rejected_injective h = cc

pub rejected-ne-resolved : {A : Type 0} {e : Error} {a : A} → rejected e ≢ resolved a
rejected-ne-resolved h = cc

module _ {N : Type 0} (to_number : String → N) (target : Option String) (f : Form)
    (create : Outcome String) (place : String → Outcome (Unit {0})) where
  -- The four ways a submission goes.
  pub data Shape (s : Submitted N) : Type 0 where
    refused_line :
        (e : Error)
        → create ≡ rejected e
        → s.closes ≡ false
        → s.place_err ≡ none
        → s.calls ≡ register (line_body to_number target f) ∷ []
        → Shape s
    plain_line :
        (id : String)
        → create ≡ resolved id
        → is_placing target ≡ false
        → s.closes ≡ true
        → s.place_err ≡ none
        → s.calls ≡ register (line_body to_number target f) ∷ []
        → Shape s
    placed_line :
        (id d : String)
        → create ≡ resolved id
        → target ≡ some d
        → is_placing target ≡ true
        → place id ≡ resolved tt
        → s.closes ≡ true
        → s.place_err ≡ none
        → s.calls ≡ register (line_body to_number target f) ∷ move id (to_drum d) ∷ []
        → Shape s
    unplaced_line :
        (id d : String) (e : Error)
        → create ≡ resolved id
        → target ≡ some d
        → is_placing target ≡ true
        → place id ≡ rejected e
        → s.closes ≡ false
        → s.place_err ≡ some (place_message e)
        → s.calls ≡ register (line_body to_number target f) ∷ move id (to_drum d) ∷ []
        → Shape s

placed-Shape :
    {N : Type 0} (to_number : String → N) (d : String) (f : Form) (id : String)
    (place : String → Outcome (Unit {0})) (o : Outcome (Unit {0}))
    → truthy d ≡ true
    → place id ≡ o
    → Shape to_number
        (some d)
        f
        (resolved id)
        place
        (placed (line_body to_number (some d) f) id d o)
unfolding placed is_placing
placed-Shape to_number d f id place (resolved _) t e = placed_line id d refl refl t e refl refl refl
placed-Shape to_number d f id place (rejected r) t e =
    unplaced_line id d r refl refl t e refl refl refl

pub submit-Shape :
    {N : Type 0} (to_number : String → N) (target : Option String) (f : Form)
    (create : Outcome String) (place : String → Outcome (Unit {0}))
    → Shape to_number target f create place (submit to_number target f create place)
unfolding submit registered is_placing
submit-Shape to_number target f (rejected e) place = refused_line e refl refl refl refl
submit-Shape to_number none f (resolved id) place = plain_line id refl refl refl refl refl
submit-Shape to_number (some d) f (resolved id) place = elim (Bool-cases (truthy d)) [
  | inl t ↦
      subst (Shape to_number (some d) f (resolved id) place) (sym (if_true _ _ t))
        (placed-Shape to_number d f id place (place id) t refl)
  | inr t ↦
      subst (Shape to_number (some d) f (resolved id) place) (sym (if_false _ _ t))
        (plain_line id refl t refl refl refl)
]
