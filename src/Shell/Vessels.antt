-- ===== src/Shell/Vessels.antt =====
-- web/src/app/VesselContext.tsx and VesselSwitcher.tsx: which vessel the requests are about.
use mooring_line_management.Base.{
  ◌≡◌, ◌≢◌, ◌∙◌, ◌↔◌, refl, String, Option, none, some, List, [], ◌∷◌, map,
}
use mooring_line_management.Schema.{Vessel}
use mooring_line_management.Api.Http.{Outcome, resolved, rejected, plain}
use mooring_line_management.Shell.{Scope, onboard, shore}

-- `data` of `useVessels`: not there yet, the JSON value `null`, or a list.
pub data Fleet : Type 0 where
  pending null_list : Fleet
  fleet : List Vessel → Fleet

abbrev pub type_error : {A : Type 0} → Outcome A
type_error = rejected (plain "TypeError")

-- `vessels[0]?.id` after the default `= []`, which stands in for `undefined` only.
unfoldable pub first_id : Fleet → Outcome (Option String)
first_id pending = resolved none
first_id null_list = type_error
first_id (fleet []) = resolved none
first_id (fleet (v ∷ vs)) = resolved (some v.id)

unfoldable pub vessel_id :
    Scope → Option String → (selected : Option String) → Fleet → Outcome (Option String)
unfolding first_id
vessel_id onboard configured selected f = resolved configured
vessel_id shore configured (some id) f = resolved (some id)
vessel_id shore configured none f = first_id f

-- The options of the switcher, which an onboard deployment does not have.
unfoldable pub options : Scope → Fleet → Outcome (Option (List (String × String)))
options onboard f = resolved none
options shore pending = resolved (some [])
options shore null_list = type_error
options shore (fleet vs) = resolved (some (map (λ v. (v.id, v.name)) vs))

fleet-ne-null_list : {vs : List Vessel} → fleet vs ≢ null_list
fleet-ne-null_list h = cc

resolved-ne-rejected : {A : Type 0} {a : A} {r : Outcome A} → r ≡ type_error → resolved a ≢ r
resolved-ne-rejected e h = not_both (h ∙ e)
  where
    not_both : {B : Type 0} {b : B} → resolved b ≢ type_error
    not_both k = cc

-- An exception is thrown exactly on shore, with no vessel selected, when the API answers `null` for
-- the list of vessels; in every other case there is a current vessel or none.
pub vessel_id-throws_iff :
    (s : Scope) (configured selected : Option String) (f : Fleet)
    → (vessel_id s configured selected f ≡ type_error)
      ↔ ((s ≡ shore) × (selected ≡ none) × (f ≡ null_list))
unfolding vessel_id first_id
vessel_id-throws_iff onboard configured selected f =
    (λ h. absurd (resolved-ne-rejected refl h), λ h. absurd (onboard-ne-shore h.0))
  where
    onboard-ne-shore : onboard ≢ shore
    onboard-ne-shore h = cc
vessel_id-throws_iff shore configured (some id) f =
    (λ h. absurd (resolved-ne-rejected refl h), λ h. absurd (some-ne-none h.1))
  where
    some-ne-none : some id ≢ none
    some-ne-none h = cc
vessel_id-throws_iff shore configured none pending =
    (λ h. absurd (resolved-ne-rejected refl h), λ h. absurd (pending-ne-null_list h.2))
  where
    pending-ne-null_list : pending ≢ null_list
    pending-ne-null_list h = cc
vessel_id-throws_iff shore configured none null_list = (λ h. (refl, refl, refl), λ h. refl)
vessel_id-throws_iff shore configured none (fleet []) =
    (λ h. absurd (resolved-ne-rejected refl h), λ h. absurd (fleet-ne-null_list h.2))
vessel_id-throws_iff shore configured none (fleet (v ∷ vs)) =
    (λ h. absurd (resolved-ne-rejected refl h), λ h. absurd (fleet-ne-null_list h.2))
