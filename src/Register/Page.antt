-- ===== src/Register/Page.antt =====
-- web/src/features/register/RegisterPage.tsx: the page's hooks and handlers as a state machine, and its
-- table. The search is kept in the address: `URLSearchParams` is the browser's, an
-- interface.
pub mod Search
use mooring_line_management.Base.{
  ◌≡◌, ℕ, String, Bool, true, false, not, ◌&&◌, Option, none, some, List, [], ◌∷◌, map, length,
  ◌==◌, concat, show, truthy, or_else, if◌then◌else◌, lacks,
}
use mooring_line_management.Int.{ℤ}
use mooring_line_management.Schema.{LineRow, LineType}
use mooring_line_management.Api.Http.{Outcome, resolved, rejected, plain, ◌>>=◌, or_text}
use mooring_line_management.Api.Keys.{LineFilters, Condition, Placement}
use mooring_line_management.Format.{age_label}
use mooring_line_management.Register.Table.{
  Collation, Inputs, Sort, SortKey, Dir, name, ascending, descending, columns, same_key, click,
  rows, request_filters,
}

-- The search part of an address, as the page reads and writes it.
pub record SearchParams : Type 1 where
  pub Params : Type 0
  pub get : Params → String → Option String
  pub of_pairs : List (String × String) → Params
  pub get-of_none : (k : String) → get (of_pairs []) k ≡ none
  pub get-of_one : (k v : String) → get (of_pairs ((k, v) ∷ [])) k ≡ some v

module _ (browser : SearchParams) where
  pub record Page : Type 0 where
    pub params : browser.Params
    pub add_open : Bool
    pub condition : Option Condition
    pub line_type_id : String
    pub placement : Option Placement
    pub sort : Sort

  -- The page as it opens at an address.
  unfoldable pub arrive : browser.Params → Page
  arrive params = record {
    params = params;
    add_open = false;
    condition = none;
    line_type_id = "";
    placement = none;
    sort = record { key = name; dir = ascending };
  }

  -- `params.get("q") ?? ""`, the text in the search box.
  unfoldable pub shown_query : Page → String
  shown_query p = or_else (browser.get p.params "q") ""

-- The handlers. "Add line" stands inside a `WriteGuard`; the dialog closes itself.
pub data Event : Type 0 where
  type_query : String → Event
  pick_type : (id : String) → Event
  pick_condition : Option Condition → Event
  pick_placement : Option Placement → Event
  click_head : SortKey → Event
  open_add : (can_write : Bool) → Event
  close_add : Event

module _ (browser : SearchParams) where
  unfoldable pub step : Event → Page browser → Page browser
  step (type_query text) p = record p {
    params = browser.of_pairs (if truthy text then ("q", text) ∷ [] else []);
  }
  step (pick_type id) p = record p { line_type_id = id }
  step (pick_condition c) p = record p { condition = c }
  step (pick_placement c) p = record p { placement = c }
  step (click_head k) p = record p { sort = click k p.sort }
  step (open_add can_write) p = record p { add_open = if can_write then true else p.add_open }
  step close_add p = record p { add_open = false }

  unfoldable pub inputs : Page browser → Inputs
  inputs p = record {
    q = browser.get p.params "q";
    condition = p.condition;
    line_type_id = p.line_type_id;
    placement = p.placement;
  }

  -- The filters of the request that the page makes.
  unfoldable pub filters : Page browser → LineFilters
  unfolding inputs
  filters p = request_filters (inputs p)

  -- `addOpen && vesselId`
  unfoldable pub dialog_vessel : Option String → Page browser → Option String
  dialog_vessel none p = none
  dialog_vessel (some v) p = if p.add_open && truthy v then some v else none

-- `data` of a query for a list: not there yet, the JSON value `null`, or a list.
pub data Answer (A : Type 0) : Type 0 where
  pending null_list : Answer A
  listed : List A → Answer A

-- The options behind "All types"; the default `= []` stands in for `undefined` only.
unfoldable pub type_options : Answer LineType → Outcome (List (String × String))
type_options pending = resolved []
type_options null_list = rejected (plain "TypeError")
type_options (listed ts) = resolved (map (λ t. (t.id, t.name)) ts)

-- `data` of `useLines`
pub record LinePage : Type 0 where
  pub items : Option (List LineRow)
  pub total : ℕ

pub record TableRow : Type 0 where
  pub id : String
  pub name : String
  pub serial_number : String
  pub product_name : String
  pub maker_name : String
  pub line_type_name : String
  pub location_label : String
  pub condition : String
  pub side : String
  pub age : String
  pub status : String

unfoldable pub table_row : LineRow → TableRow
table_row r = record {
  id = r.id;
  name = r.name;
  serial_number = r.serial_number;
  product_name = r.product_name;
  maker_name = r.maker_name;
  line_type_name = r.line_type_name;
  location_label = r.location_label;
  condition = or_text r.current_condition_status "—";
  side = or_text r.current_side "—";
  age = age_label (some r.install_age_days);
  status = r.lifecycle_status;
}

pub record View : Type 0 where
  pub types : List (String × String)
  pub heads : List String
  pub count : String
  pub table : List TableRow
  pub no_match : Bool

arrow : Sort → SortKey → String
arrow s key = if same_key s.key key then elim s.dir [ ascending ↦ " ▲" | descending ↦ " ▼" ] else ""

items_of : Option LinePage → List LineRow
items_of none = []
items_of (some d) = or_else d.items []

total_of : Option LinePage → ℕ
total_of none = 0
total_of (some d) = d.total

module _ (collation : Collation) where
  view_of : Sort → (is_loading : Bool) → Option LinePage → List (String × String) → View
  unfolding arrow items_of total_of table_row
  view_of s is_loading found types =
      let sorted = rows collation s (items_of found) in
      record {
        types = types;
        heads = map (λ c. concat (c.1 ∷ arrow s c.0 ∷ [])) columns;
        count =
            if is_loading
            then "loading…"
            else concat (show (length sorted) ∷ " of " ∷ show (total_of found) ∷ " lines" ∷ []);
        table = map table_row sorted;
        no_match = (length sorted == 0) && not is_loading;
      }

  -- What the page renders, or the exception that rendering throws.
  unfoldable pub view :
      Sort → (is_loading : Bool) → Option LinePage → Answer LineType → Outcome View
  unfolding view_of type_options
  view s is_loading found types = do
    options ← type_options types
    resolved (view_of s is_loading found options)
