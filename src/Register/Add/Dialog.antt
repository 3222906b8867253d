-- ===== src/Register/Add/Dialog.antt =====
-- web/src/features/register/AddLineDialog.tsx: the dialog as a state machine.
use mooring_line_management.Base.{
  ◌≡◌, ap, String, Bool, true, false, not, ◌&&◌, Option, none, some, List, [], ◌∷◌, ◌++◌, truthy,
  is_some, if◌then◌else◌, All, All-append, Bool-cases, inl, inr, if_true, if_false, sym, subst,
  arith,
}
use mooring_line_management.Api.Http.{Outcome, resolved, rejected}
use mooring_line_management.Register.Add.{
  Lifecycle, Form, blank, is_placing, can_submit, Call, register, move, line_body, placed,
  registered, submit,
}

pub data Field : Type 0 where
  product_id name serial_number tag_number certificate_number : Field
  length manufacture_date installation_date : Field

-- `set(k)`
unfoldable pub set_field : Field → String → Form → Form
set_field product_id v f = record f { product_id = v }
set_field name v f = record f { name = v }
set_field serial_number v f = record f { serial_number = v }
set_field tag_number v f = record f { tag_number = v }
set_field certificate_number v f = record f { certificate_number = v }
set_field length v f = record f { length = v }
set_field manufacture_date v f = record f { manufacture_date = v }
set_field installation_date v f = record f { installation_date = v }

-- The hooks; `sending` is the form that a running `submit` was called with.
pub record Dialog : Type 0 where
  pub form : Form
  pub sending : Option Form
  pub place_err : Option String
  pub register_failed : Bool
  pub is_open : Bool

abbrev pub opened : Dialog
opened = record {
  form = blank;
  sending = none;
  place_err = none;
  register_failed = false;
  is_open = true;
}

-- `settled` ends a `submit` with the answers to its two requests.
pub data DialogEvent : Type 0 where
  set : Field → String → DialogEvent
  set_lifecycle : Lifecycle → DialogEvent
  click close : DialogEvent
  settled : (create : Outcome String) → (place : String → Outcome (Unit {0})) → DialogEvent

abbrev pub is_rejected {ℓ} : {A : Type ℓ} → Outcome A → Bool
is_rejected (resolved a) = false
is_rejected (rejected e) = true

module _ {N : Type 0} (to_number : String → N) (target : Option String) where
  unfoldable pub settle :
      (create : Outcome String)
      → (place : String → Outcome (Unit {0})) → Dialog
      → Dialog × List (Call N)
  unfolding submit
  settle create place d = elim d.sending [
    | none ↦ (d, [])
    | some f ↦
        let r = submit to_number target f create place in
        (
          record d {
            sending = none;
            place_err = r.place_err;
            register_failed = is_rejected r.promise;
            is_open = d.is_open && not r.closes;
          },
          r.calls,
        )
  ]

  -- The input "Lifecycle" is disabled while the dialog places a line. The requests of a `submit` stand at
  -- its end.
  unfoldable pub dialog_step : DialogEvent → Dialog → Dialog × List (Call N)
  unfolding set_field settle can_submit is_placing
  dialog_step (set k v) d = (record d { form = set_field k v d.form }, [])
  dialog_step (set_lifecycle l) d = (
    if is_placing target then d else record d { form = record d.form { lifecycle_status = l } },
    [],
  )
  dialog_step click d = (
    if can_submit d.form (is_some d.sending) && d.is_open
        then record d { sending = some d.form; place_err = none; register_failed = false }
        else d,
    [],
  )
  dialog_step close d = (record d { is_open = false }, [])
  dialog_step (settled create place) d = settle create place d

  -- The requests of a run, in their order.
  unfoldable pub requests : List DialogEvent → Dialog → List (Call N)
  unfolding dialog_step
  requests [] d = []
  requests (e ∷ es) d = let (next, calls) = dialog_step e d in calls ++ requests es next

is_named : Form → Bool
is_named f = truthy f.product_id && truthy f.name && truthy f.serial_number

module _ {N : Type 0} where
  -- A registration has a product, a name and a serial number.
  pub HasNames : Call N → Type 0
  HasNames (register b) = (truthy b.product_id && truthy b.name && truthy b.serial_number) ≡ true
  HasNames (move id body) = Unit {0}

  submit-HasNames :
      (to_number : String → N) (target : Option String) (f : Form) (create : Outcome String)
      (place : String → Outcome (Unit {0}))
      → is_named f ≡ true
      → All HasNames (submit to_number target f create place).calls
  unfolding submit line_body registered placed HasNames is_named
  submit-HasNames to_number target f (rejected e) place h = (h, tt)
  submit-HasNames to_number none f (resolved id) place h = (h, tt)
  submit-HasNames to_number (some d) f (resolved id) place h =
      elim (truthy d)
        as (λ b.
          All HasNames
            (if b then placed (line_body to_number (some d) f) id d (place id) else record {
              calls = register (line_body to_number (some d) f) ∷ [];
              place_err = none;
              closes = true;
              promise = resolved tt;
            }).calls) [
              | true ↦
                  elim (place id)
                    as (λ o. All HasNames (placed (line_body to_number (some d) f) id d o).calls) [
                      | resolved u ↦ (h, (tt, tt))
                      | rejected e ↦ (h, (tt, tt))
                    ]
              | false ↦ (h, tt)
            ]

-- The form of a running `submit` has the three texts.
SendsNamed : Option Form → Type 0
SendsNamed none = Unit {0}
SendsNamed (some f) = is_named f ≡ true

module _ {N : Type 0} (to_number : String → N) (target : Option String) where
  IsRight : Dialog × List (Call N) → Type 0
  IsRight n = SendsNamed n.0.sending × All HasNames n.1

  settle-SendsNamed :
      (create : Outcome String) (place : String → Outcome (Unit {0})) (d : Dialog)
      → SendsNamed d.sending
      → IsRight (settle to_number target create place d)
  unfolding settle SendsNamed IsRight
  settle-SendsNamed create place d h =
      (elim d.sending
          as (λ o.
            SendsNamed o
            → IsRight (elim o [
              | none ↦ (d, [])
              | some f ↦
                  let r = submit to_number target f create place in
                  (
                    record d {
                      sending = none;
                      place_err = r.place_err;
                      register_failed = is_rejected r.promise;
                      is_open = d.is_open && not r.closes;
                    },
                    r.calls,
                  )
            ])) [
              | none ↦ λ k. (h, tt)
              | some f ↦ λ k. (tt, submit-HasNames to_number target f create place k)
            ])
        h

  dialog_step-SendsNamed :
      (e : DialogEvent) (d : Dialog)
      → SendsNamed d.sending
      → IsRight (dialog_step to_number target e d)
  unfolding dialog_step SendsNamed IsRight can_submit is_named
  dialog_step-SendsNamed (set k v) d h = (h, tt)
  dialog_step-SendsNamed (set_lifecycle l) d h = (
    elim (is_placing target)
        as (λ b.
          SendsNamed
            (if b then d else record d { form = record d.form { lifecycle_status = l } }).sending) [
              | true ↦ h
              | false ↦ h
            ],
    tt,
  )
  dialog_step-SendsNamed click d h = (
    elim (Bool-cases (can_submit d.form (is_some d.sending) && d.is_open)) [
      | inl q ↦
          subst SendsNamed (sym (ap (λ (n : Dialog). n.sending) (if_true _ _ q)))
            (ground (arith, q))
      | inr q ↦ subst SendsNamed (sym (ap (λ (n : Dialog). n.sending) (if_false _ _ q))) h
    ],
    tt,
  )
  dialog_step-SendsNamed close d h = (h, tt)
  dialog_step-SendsNamed (settled create place) d h = settle-SendsNamed create place d h

  requests_from-HasNames :
      (es : List DialogEvent) (d : Dialog)
      → SendsNamed d.sending
      → All HasNames (requests to_number target es d)
  unfolding requests IsRight
  requests_from-HasNames [] d h = tt
  requests_from-HasNames (e ∷ es) d h =
      let (next, now) = dialog_step-SendsNamed e d h in
      All-append HasNames _ _ now (requests_from-HasNames es _ next)

  -- Whatever the user does in the dialog, each registration that it sends has a product, a name and a
  -- serial number.
  pub requests-HasNames :
      (es : List DialogEvent) → All HasNames (requests to_number target es opened)
  unfolding SendsNamed
  requests-HasNames es = requests_from-HasNames es opened tt
