-- ===== src/Inspections/Pages.antt =====
-- What the dialog of the inspections sends.
use mooring_line_management.Base.{refl, String, true, false, none, some, Option, List, [], ◌∷◌, All}
use mooring_line_management.Api.Http.{resolved, rejected}
use mooring_line_management.Files.{InspectionBody, inspection_body}
use mooring_line_management.Contract.Requests.{inspection_request, InspectionRequest}
use mooring_line_management.Contract.HttpCalls.{call}
use mooring_line_management.Contract.Calls.{IsDeclared}
use mooring_line_management.Contract.Declared.{request-IsDeclared}
use mooring_line_management.Contract.Sending.{IsOneOf, conditions}
use mooring_line_management.Inspections.{
  Condition, good, monitor, action, condition_text, Tab, TabEvent, open_dialog, cancel,
  set_condition, set_inspected_by, set_notes, set_inspected_at, submit, settled, tab_step,
  submitted, sent,
}

-- The condition of an open form is one of the three.
HasCondition : Tab → Type 0
HasCondition none = Unit {0}
HasCondition (some d) = IsOneOf conditions d.form.condition_status

condition_text-IsOneOf : (c : Condition) → IsOneOf conditions (condition_text c)
condition_text-IsOneOf good = refl
condition_text-IsOneOf monitor = refl
condition_text-IsOneOf action = refl

tab_step-HasCondition : (e : TabEvent) (t : Tab) → HasCondition t → HasCondition (tab_step e t).0
unfolding tab_step submitted HasCondition
tab_step-HasCondition (open_dialog true) none h = refl
tab_step-HasCondition (open_dialog true) (some d) h = h
tab_step-HasCondition (open_dialog false) t h = h
tab_step-HasCondition cancel t h = tt
tab_step-HasCondition (set_condition c) none h = tt
tab_step-HasCondition (set_condition c) (some d) h = condition_text-IsOneOf c
tab_step-HasCondition (set_inspected_by s) none h = tt
tab_step-HasCondition (set_inspected_by s) (some d) h = h
tab_step-HasCondition (set_notes s) none h = tt
tab_step-HasCondition (set_notes s) (some d) h = h
tab_step-HasCondition (set_inspected_at s) none h = tt
tab_step-HasCondition (set_inspected_at s) (some d) h = h
tab_step-HasCondition submit none h = tt
tab_step-HasCondition submit (some d) h =
    elim d.is_pending as (λ b. HasCondition (submitted b d).0) [ true ↦ h | false ↦ h ]
tab_step-HasCondition (settled own (resolved u)) t h = tt
tab_step-HasCondition (settled false (rejected e)) t h = h
tab_step-HasCondition (settled true (rejected e)) none h = tt
tab_step-HasCondition (settled true (rejected e)) (some d) h = h

-- The body of a step's request, if there is one.
BodyHas : Option InspectionBody → Type 0
BodyHas none = Unit {0}
BodyHas (some b) = IsOneOf conditions b.condition_status

tab_step-BodyHas : (e : TabEvent) (t : Tab) → HasCondition t → BodyHas (tab_step e t).1
unfolding tab_step submitted HasCondition BodyHas inspection_body
tab_step-BodyHas (open_dialog true) none h = tt
tab_step-BodyHas (open_dialog true) (some d) h = tt
tab_step-BodyHas (open_dialog false) t h = tt
tab_step-BodyHas submit none h = tt
tab_step-BodyHas submit (some d) h = elim d.is_pending as (λ b. BodyHas (submitted b d).1) [
  | true ↦ tt
  | false ↦ h
]
tab_step-BodyHas (settled own (resolved u)) t h = tt
tab_step-BodyHas (settled false (rejected e)) t h = tt
tab_step-BodyHas (settled true (rejected e)) t h = tt
tab_step-BodyHas _ t h = tt

module _ (N : Type 0) (encode : String → String) (line_id : String) where
  abbrev pub LogsDeclared : List InspectionBody → Type 0
  LogsDeclared bs =
      All
        (λ b.
          IsDeclared
            (call {N = N} encode (inspection_request (InspectionRequest.log_inspection line_id b))))
        bs

  sent_from-IsDeclared : (es : List TabEvent) (t : Tab) → HasCondition t → LogsDeclared (sent es t)
  unfolding sent BodyHas
  sent_from-IsDeclared [] t h = tt
  sent_from-IsDeclared (e ∷ es) t h =
      go (tab_step e t).1 (tab_step-BodyHas e t h)
        (sent_from-IsDeclared es (tab_step e t).0 (tab_step-HasCondition e t h))
    where
      go :
          (o : Option InspectionBody)
          → BodyHas o
          → LogsDeclared (sent es (tab_step e t).0)
          → LogsDeclared
              (elim o [ none ↦ sent es (tab_step e t).0 | some b ↦ b ∷ sent es (tab_step e t).0 ])
      go none k r = r
      go (some b) k r = (request-IsDeclared encode _ refl k, r)

  -- Whatever the user does on the tab of a line's inspections, each inspection that is sent is a request
  -- that the schema declares, its body included.
  pub sent-IsDeclared : (es : List TabEvent) → LogsDeclared (sent es none)
  unfolding HasCondition
  sent-IsDeclared es = sent_from-IsDeclared es none tt
