-- ===== src/Contract/Declared/Typed.antt =====
-- The typed client's requests are operations of the schema.
use mooring_line_management.Base.{◌≡◌, refl, true, [], ◌∷◌}
use mooring_line_management.Api.Keys.{
  LineFilters, Condition, good, monitor, action, Placement, installed, spare,
}
use mooring_line_management.Contract.Operations.Access as Access
use mooring_line_management.Contract.Operations.Lines as Lines
use mooring_line_management.Contract.Operations.Fleet as Fleet
use mooring_line_management.Contract.Conforms.{conforms, fields_conform}
use mooring_line_management.Contract.Templates.{filled, pieces, operation_at}
use mooring_line_management.Contract.Requests.{TypedRequest}
use mooring_line_management.Contract.HttpCalls.{
  condition_text, placement_text, lines_query, typed_call,
}
use mooring_line_management.Contract.Sending.{
  IsOneOf, conditions, fields_conform-optional_field, layout_json-conforms,
}
use mooring_line_management.Contract.Forms.{move_json-conforms, line_json-conforms}
use mooring_line_management.Contract.Calls.{IsDeclared, TypedLiterals}

condition_text-IsOneOf : (c : Condition) → IsOneOf conditions (condition_text c)
condition_text-IsOneOf good = refl
condition_text-IsOneOf monitor = refl
condition_text-IsOneOf action = refl

placement_text-IsOneOf : (p : Placement) → IsOneOf ("installed" ∷ "spare" ∷ []) (placement_text p)
placement_text-IsOneOf installed = refl
placement_text-IsOneOf spare = refl

module _ (N : Type 0) where
  lines_query-conforms :
      (f : LineFilters) → fields_conform (Fleet.list_lines).query (lines_query {N = N} f) ≡ true
  unfolding lines_query conforms
  lines_query-conforms f =
      fields_conform-optional_field _ _ _ f.q _ (λ a e. refl)
        (fields_conform-optional_field _ _ _ f.condition _ (λ c e. condition_text-IsOneOf c)
          (fields_conform-optional_field _ _ _ f.line_type_id _ (λ a e. refl)
            (fields_conform-optional_field _ _ _ f.placement _ (λ p e. placement_text-IsOneOf p)
              refl)))

module _ {N : Type 0} where
  pub typed_call-IsDeclared : (r : TypedRequest N) → TypedLiterals r → IsDeclared (typed_call r)
  unfolding operation_at typed_call conforms filled pieces
  typed_call-IsDeclared TypedRequest.get_health h =
      ("/health", Access.health, refl, (refl, (refl, refl, refl)), tt)
  typed_call-IsDeclared TypedRequest.list_vessels h =
      ("/vessels", Fleet.list_vessels, refl, (refl, (refl, refl, refl)), tt)
  typed_call-IsDeclared TypedRequest.list_products h =
      ("/products", Fleet.list_products, refl, (refl, (refl, refl, refl)), tt)
  typed_call-IsDeclared TypedRequest.list_line_types h =
      ("/line-types", Fleet.list_line_types, refl, (refl, (refl, refl, refl)), tt)
  typed_call-IsDeclared (TypedRequest.get_layout v) h =
      ("/vessels/{vessel_id}/layout", Fleet.get_layout, refl, (refl, (refl, refl, refl)), tt)
  typed_call-IsDeclared (TypedRequest.list_lines v f) h = (
    "/vessels/{vessel_id}/lines",
    Fleet.list_lines,
    refl,
    (refl, (refl, refl, lines_query-conforms N f)),
    tt,
  )
  typed_call-IsDeclared (TypedRequest.get_line id) h =
      ("/lines/{id}", Lines.get_line, refl, (refl, (refl, refl, refl)), tt)
  typed_call-IsDeclared (TypedRequest.register_line v b) h = (
    "/vessels/{vessel_id}/lines",
    Fleet.register_line,
    refl,
    (refl, (refl, refl, refl)),
    line_json-conforms b h.0 h.1,
  )
  typed_call-IsDeclared (TypedRequest.move_line id b) h = (
    "/lines/{id}/move",
    Lines.move_line,
    refl,
    (refl, (refl, refl, refl)),
    move_json-conforms N b,
  )
  typed_call-IsDeclared (TypedRequest.save_layout v b) h = (
    "/vessels/{vessel_id}/layout",
    Fleet.save_layout,
    refl,
    (refl, (refl, refl, refl)),
    layout_json-conforms b h.0 h.1,
  )
