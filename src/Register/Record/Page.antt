-- ===== src/Register/Record/Page.antt =====
-- web/src/features/register/RopeRecord.tsx: the page of a line with its tabs. A line's components, which
-- are lines again, stand beside it: nothing is shown of a component's own components.
use mooring_line_management.Base.{
  ◌≡◌, refl, String, Bool, true, false, ◌||◌, Option, none, some, List, [], ◌∷◌, map, concat,
  if◌then◌else◌,
}
use mooring_line_management.Number.{Number}
use mooring_line_management.Schema.{Line}
use mooring_line_management.Api.Http.{or_text}
use mooring_line_management.Api.Query.{QueryState}
use mooring_line_management.Format.{age_label, date_label, cond_class, lifecycle_class}
use mooring_line_management.Register.Record.{SideTab, side_tracking}

-- `TABS`
pub data Tab : Type 0 where
  overview side_tab inspections files : Tab

unfoldable pub tab_text : Tab → String
tab_text overview = "Overview"
tab_text side_tab = "Side tracking"
tab_text inspections = "Inspections"
tab_text files = "Files & photos"

abbrev pub tabs : List Tab
tabs = overview ∷ side_tab ∷ inspections ∷ files ∷ []

-- The head of the page, above the tabs. A `CopyButton` of an empty text shows a dash.
pub record Head : Type 0 where
  pub title : String
  pub product : String
  pub condition_class : String
  pub condition : String
  pub side : String
  pub install_age : String
  pub build_age : String
  pub next_inspection : String
  pub lifecycle_class : String
  pub tag : String
  pub certificate : String
  pub serial : String

abbrev pub copy_text : Option String → String
copy_text value = or_text value "—"

-- A row of the list of components.
abbrev pub component_row : {N : Type 0} → Line N → List String
component_row c =
    c.name ∷ c.line_type_name ∷ c.serial_number ∷ or_text c.certificate_number "—" ∷ []

pub data TabBody : Type 0 where
  facts : List (String × String) → (components : List (List String)) → TabBody
  side_body : SideTab → TabBody
  inspections_of files_of : (line_id : String) → TabBody

pub data Page : Type 0 where
  loading : Page
  shown : Head → TabBody → Page

module _ {N : Type 0} ⦃num : Number N⦄ (locale_date : String → String)
    (show_number : N → String) where
  head : Line N → Head
  head l = record {
    title = l.name;
    product = concat (l.product_name ∷ " · " ∷ l.maker_name ∷ " · " ∷ l.line_type_name ∷ []);
    condition_class = concat ("cond-text " ∷ cond_class l.current_condition_status ∷ []);
    condition = or_text l.current_condition_status "—";
    side = or_text l.current_side "n/a";
    install_age = age_label (some l.install_age_days);
    build_age = age_label (some l.build_age_days);
    next_inspection = date_label locale_date l.next_inspection_due;
    lifecycle_class = lifecycle_class l.lifecycle_status;
    tag = copy_text l.tag_number;
    certificate = copy_text l.certificate_number;
    serial = copy_text (some l.serial_number);
  }

  -- `l.length ? … : "—"`: zero counts as no length.
  length_text : Option N → String
  length_text none = "—"
  length_text (some n) =
      if num.lt n num.zero || num.lt num.zero n then concat (show_number n ∷ " m" ∷ []) else "—"

  -- The list of the tab "Overview".
  overview_facts : Line N → List (String × String)
  unfolding length_text
  overview_facts l =
      ("Product", l.product_name)
      ∷ ("Maker", l.maker_name)
      ∷ ("Line type", l.line_type_name)
      ∷ ("Construction", or_text l.construction_type "—")
      ∷ ("Length", length_text l.length)
      ∷ ("Serial", l.serial_number)
      ∷ ("Location", l.location_label)
      ∷ ("Manufactured", date_label locale_date l.manufacture_date)
      ∷ ("Installed", date_label locale_date l.installation_date)
      ∷ ("Turnable", if l.can_be_turned then "Yes" else "No")
      ∷ []

  tab_body : Line N → List (Line N) → (can_write is_pending : Bool) → Tab → TabBody
  unfolding overview_facts
  tab_body l components can_write is_pending overview =
      facts (overview_facts l) (map component_row components)
  tab_body l components can_write is_pending side_tab =
      side_body (side_tracking locale_date l can_write is_pending)
  tab_body l components can_write is_pending inspections = inspections_of l.id
  tab_body l components can_write is_pending files = files_of l.id

  -- `if (isLoading || !l)`, and the page of the line.
  unfoldable pub record_page :
      QueryState (Line N × List (Line N)) → (can_write is_pending : Bool) → Tab → Page
  unfolding head tab_body
  record_page q can_write is_pending t = if q.is_loading then loading else elim q.result [
    | none ↦ loading
    | some (l, components) ↦ shown (head l) (tab_body l components can_write is_pending t)
  ]

  -- The page of a line that could not be loaded is the one of a line that is still loading, whatever was
  -- answered and whichever tab is chosen.
  record_page_failed :
      (q r : QueryState (Line N × List (Line N))) (can_write is_pending : Bool) (t u : Tab)
      → q.result ≡ none
      → r.is_loading ≡ true
      → record_page q can_write is_pending t ≡ record_page r can_write is_pending u
  unfolding record_page
  record_page_failed q r can_write is_pending t u h k =
      rw (h, k)
        (elim q.is_loading as (λ b. (if b then loading else loading) ≡ loading) [
          | true ↦ refl
          | false ↦ refl
        ])
