-- ===== src/Inspections.antt =====
-- web/src/features/inspections: the pages of the inspections and of the log book, the tab of a line's
-- inspections, and the dialog that logs one. The server sends no `null` for the lists
-- (api/internal/store/inspections.go).
pub mod Pages
use mooring_line_management.Base.{
  ℕ, zero, suc, String, Bool, true, false, not, Option, none, some, List, [], ◌∷◌, map, length,
  ◌==◌, str_eq, concat, truthy, or_else, or_undefined, if◌then◌else◌,
}
use mooring_line_management.Schema.{Inspection, InspLogbookEntry}
use mooring_line_management.Api.Http.{Outcome, resolved, rejected, or_text}
use mooring_line_management.Api.Query.{QueryState}
use mooring_line_management.Format.{date_label}
use mooring_line_management.Files.{InspectionForm, InspectionBody, inspection_body}

-- `xs.slice(0, n)`
abbrev pub take : {A : Type 0} → ℕ → List A → List A
take zero xs = []
take (suc n) [] = []
take (suc n) (x ∷ xs) = x ∷ take n xs

-- What a page has below its head: while the list is loading, without an entry, or with entries.
pub data Body (R : Type 0) : Type 0 where
  loading none_yet : Body R
  listed : List R → Body R

-- `isLoading ? … : list.length === 0 ? … : list.map(…)`
unfoldable pub page_body : {A R : Type 0} → (A → R) → Bool → List A → Body R
page_body row is_loading xs =
    if is_loading then loading else if length xs == 0 then none_yet else listed (map row xs)

-- `const { data: entries = [] } = …`: no list yet, or none at all where the query failed.
unfoldable pub entries : {A : Type 0} → QueryState (List A) → List A
entries q = or_else q.result []

-- `inspected_by || (source === "api" ? "Third-party API" : "—")`
unfoldable pub inspector : Option String → (source : String) → String
inspector by source = or_text by (if str_eq source "api" then "Third-party API" else "—")

-- `notes && …`
abbrev pub shown_notes : Option String → Option String
shown_notes none = none
shown_notes (some s) = or_undefined s

pub record RecentRow : Type 0 where
  pub id : String
  pub date : String
  pub condition : String
  pub line : String
  pub notes : Option String

pub record TabRow : Type 0 where
  pub id : String
  pub date : String
  pub condition : String
  pub by : String
  pub notes : Option String

pub record LogRow : Type 0 where
  pub id : String
  pub date : String
  pub line_name : String
  pub serial_number : String
  pub condition : String
  pub by : String
  pub notes : String

module _ (locale_date : String → String) where
  unfoldable pub recent_row : InspLogbookEntry → RecentRow
  recent_row i = record {
    id = i.id;
    date = date_label locale_date (some i.inspected_at);
    condition = i.condition_status;
    line = concat (i.line_name ∷ " · " ∷ i.serial_number ∷ []);
    notes = shown_notes i.notes;
  }

  unfoldable pub tab_row : Inspection → TabRow
  unfolding inspector
  tab_row i = record {
    id = i.id;
    date = date_label locale_date (some i.inspected_at);
    condition = i.condition_status;
    by = inspector i.inspected_by i.source;
    notes = shown_notes i.notes;
  }

  unfoldable pub log_row : InspLogbookEntry → LogRow
  unfolding inspector
  log_row i = record {
    id = i.id;
    date = date_label locale_date (some i.inspected_at);
    line_name = i.line_name;
    serial_number = i.serial_number;
    condition = i.condition_status;
    by = inspector i.inspected_by i.source;
    notes = or_text i.notes "—";
  }

  -- `InspectionsPage` shows the first twenty entries of the log book.
  unfoldable pub inspections_page : QueryState (List InspLogbookEntry) → Body RecentRow
  unfolding page_body entries recent_row
  inspections_page q = page_body recent_row q.is_loading (take 20 (entries q))

  unfoldable pub logbook_page : QueryState (List InspLogbookEntry) → Body LogRow
  unfolding page_body entries log_row
  logbook_page q = page_body log_row q.is_loading (entries q)

  unfoldable pub inspections_tab : QueryState (List Inspection) → Body TabRow
  unfolding page_body entries tab_row
  inspections_tab q = page_body tab_row q.is_loading (entries q)

abbrev pub blank_form : InspectionForm
blank_form = record { condition_status = "Good"; inspected_by = ""; notes = ""; inspected_at = "" }

pub data Condition : Type 0 where
  good monitor action : Condition

abbrev pub condition_text : Condition → String
condition_text good = "Good"
condition_text monitor = "Monitor"
condition_text action = "Action"

-- The tab with its dialog: `open`, and the dialog's form and mutation while it is open.
pub record Dialog : Type 0 where
  pub form : InspectionForm
  pub is_pending : Bool
  pub is_error : Bool

abbrev pub Tab : Type 0
Tab = Option Dialog

-- A request that ends is of the dialog that is open, or of one that was closed before (`own`).
-- "Log inspection" stands inside a `WriteGuard`.
pub data TabEvent : Type 0 where
  open_dialog : (can_write : Bool) → TabEvent
  cancel : TabEvent
  set_condition : Condition → TabEvent
  set_inspected_by set_notes set_inspected_at : String → TabEvent
  submit : TabEvent
  settled : (own : Bool) → Outcome (Unit {0}) → TabEvent

abbrev on_dialog : (Dialog → Tab) → Tab → Tab
on_dialog f none = none
on_dialog f (some d) = f d

abbrev set_form : (InspectionForm → InspectionForm) → Tab → Tab
set_form f t = on_dialog (λ d. some (record d { form = f d.form })) t

-- The button is disabled while a request is pending.
unfoldable pub submitted : (is_pending : Bool) → Dialog → Tab × Option InspectionBody
unfolding inspection_body
submitted true d = (some d, none)
submitted false d =
    (some (record d { is_pending = true; is_error = false }), some (inspection_body d.form))

-- The new state, and the body of the request that the step makes.
unfoldable pub tab_step : TabEvent → Tab → Tab × Option InspectionBody
unfolding submitted
tab_step (open_dialog true) none =
    (some (record { form = blank_form; is_pending = false; is_error = false }), none)
tab_step (open_dialog can_write) t = (t, none)
tab_step cancel t = (none, none)
tab_step (set_condition c) t =
    (set_form (λ f. record f { condition_status = condition_text c }) t, none)
tab_step (set_inspected_by s) t = (set_form (λ f. record f { inspected_by = s }) t, none)
tab_step (set_notes s) t = (set_form (λ f. record f { notes = s }) t, none)
tab_step (set_inspected_at s) t = (set_form (λ f. record f { inspected_at = s }) t, none)
tab_step submit none = (none, none)
tab_step submit (some d) = submitted d.is_pending d
tab_step (settled own (resolved _)) t = (none, none)
tab_step (settled false (rejected e)) t = (t, none)
tab_step (settled true (rejected e)) t =
    (on_dialog (λ d. some (record d { is_pending = false; is_error = true })) t, none)

-- The bodies of the requests of a run, in their order.
unfoldable pub sent : List TabEvent → Tab → List InspectionBody
unfolding tab_step
sent [] t = []
sent (e ∷ es) t =
    let (next, body) = tab_step e t in
    let rest = sent es next in elim body [ none ↦ rest | some b ↦ b ∷ rest ]
