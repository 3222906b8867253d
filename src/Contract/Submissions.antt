-- ===== src/Contract/Submissions.antt =====
-- The requests of the dialog that registers a line and of the forms that upload a photo or a document
-- and log an inspection are operations of the schema.
use mooring_line_management.Base.{
  ◌≡◌, refl, sym, ap, subst, true, false, String, Option, none, some, List, [], ◌∷◌, All,
  if◌then◌else◌,
}
use mooring_line_management.Api.Http.{Outcome, resolved, rejected, ◌>>=◌}
use mooring_line_management.Api.Hooks.{MoveBody}
use mooring_line_management.Register.Add.{
  Lifecycle, active, ordered, spare, lifecycle_text, Form, is_placing, line_body, Call, register,
  move, submit,
}
use mooring_line_management.Register.Add.Shape.{
  refused_line, plain_line, placed_line, unplaced_line, submit-Shape, none-ne-some, some_injective,
  resolved_injective, rejected-ne-resolved,
}
use mooring_line_management.Files.{File, PhotoForm, PhotoBody, photo_request}
use mooring_line_management.Contract.Sending.{IsOneOf, IsOneOfOption, sides, lifecycles, conditions}
use mooring_line_management.Contract.Requests.{
  Request, typed_request, file_request, TypedRequest, FileRequest,
}
use mooring_line_management.Contract.HttpCalls.{call}
use mooring_line_management.Contract.Calls.{IsDeclared}
use mooring_line_management.Contract.Declared.{request-IsDeclared}

lifecycle_text-IsOneOf : (l : Lifecycle) → IsOneOf lifecycles (lifecycle_text l)
lifecycle_text-IsOneOf active = refl
lifecycle_text-IsOneOf ordered = refl
lifecycle_text-IsOneOf spare = refl

module _ {N : Type 0} where
  -- The request of a call, for the vessel of the dialog.
  abbrev pub request_of : (vessel_id : String) → Call N → Request N
  request_of v (register b) = typed_request (TypedRequest.register_line v b)
  request_of v (move id b) = typed_request (TypedRequest.move_line id b)

  register_line-IsDeclared :
      (encode : String → String) (v : String) (to_number : String → N) (target : Option String)
      (f : Form)
      → IsDeclared (
          call encode (typed_request (TypedRequest.register_line v (line_body to_number target f))))
  unfolding line_body
  register_line-IsDeclared encode v to_number target f = request-IsDeclared encode _ refl (
    elim (is_placing target)
        as (λ b. IsOneOf lifecycles (if b then "spare" else lifecycle_text f.lifecycle_status)) [
          | true ↦ refl
          | false ↦ lifecycle_text-IsOneOf f.lifecycle_status
        ],
    tt,
  )

  -- Whatever is typed into the dialog and however the API answers, each request that a submission makes,
  -- the registration and the move onto the drum, is an operation of the schema with its body.
  pub submit-IsDeclared :
      (encode : String → String) (vessel_id : String) (to_number : String → N)
      (target : Option String) (f : Form) (create : Outcome String)
      (place : String → Outcome (Unit {0}))
      → All
          (λ c. IsDeclared (call encode (request_of vessel_id c)))
          (submit to_number target f create place).calls
  submit-IsDeclared encode v to_number target f create place =
      elim (submit-Shape to_number target f create place) [
        | refused_line e c k p q ↦ one q
        | plain_line id c n k p q ↦ one q
        | placed_line id d c t n o k p q ↦ two q
        | unplaced_line id d e c t n o k p q ↦ two q
      ]
    where
      one :
          {cs : List (Call N)}
          → cs ≡ register (line_body to_number target f) ∷ []
          → All (λ c. IsDeclared (call encode (request_of v c))) cs
      one q = rw q (register_line-IsDeclared encode v to_number target f, tt)

      two :
          {cs : List (Call N)} {id : String} {b : MoveBody}
          → cs ≡ register (line_body to_number target f) ∷ move id b ∷ []
          → All (λ c. IsDeclared (call encode (request_of v c))) cs
      two q = rw q (
        register_line-IsDeclared encode v to_number target f,
        (request-IsDeclared encode _ refl tt, tt),
      )

bind_resolved :
    {A B : Type 0} (g : A → B) (m : Outcome A) (b : B)
    → (m >>= (λ a. resolved (g a))) ≡ resolved b
    → (a : A) × (g a ≡ b)
bind_resolved g (resolved a) b e = (a, resolved_injective e)
bind_resolved g (rejected r) b e = absurd (rejected-ne-resolved e)

-- The body of a photo's upload has the side and the condition of the form.
photo_request-form :
    (form : PhotoForm) (file : Option File) (b : PhotoBody)
    → photo_request (record form { file = file }) ≡ some (resolved b)
    → (b.side ≡ some form.side) × (b.condition_at_capture ≡ some form.condition)
unfolding photo_request
photo_request-form form none b e = absurd (none-ne-some e)
photo_request-form form (some f) b e =
    let (text, q) = bind_resolved _ _ b (some_injective e) in
    (sym (ap (λ (c : PhotoBody). c.side) q), sym (ap (λ (c : PhotoBody). c.condition_at_capture) q))

-- A photo that is uploaded, for whatever file, from a form whose two lists stand at one of their
-- options, is an upload that the schema declares, its body included.
pub photo_request-IsDeclared :
    (N : Type 0) (encode : String → String) (line_id : String) (form : PhotoForm) (b : PhotoBody)
    → IsOneOf sides form.side
    → IsOneOf conditions form.condition
    → photo_request form ≡ some (resolved b)
    → IsDeclared (call {N = N} encode (file_request (FileRequest.upload_photo line_id b)))
photo_request-IsDeclared N encode line_id form b h k e =
    let (s, c) = photo_request-form form form.file b e in
    request-IsDeclared encode _ refl
      (subst (IsOneOfOption sides) (sym s) h, subst (IsOneOfOption conditions) (sym c) k)
