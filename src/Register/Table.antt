-- ===== src/Register/Table.antt =====
-- web/src/features/register/RegisterPage.tsx: the filters that the page asks the API for, and the order of
-- its rows. `localeCompare` is the browser's, an interface.
pub mod Order
use mooring_line_management.Base.{
  ℕ, ◌≡◌, String, Bool, true, false, not, ◌&&◌, Option, none, some, List, [], ◌∷◌, or_undefined,
  or_else, truthy, sort_by, length, ◌==◌, if◌then◌else◌,
}
use mooring_line_management.Int.{ℤ, int_le}
use mooring_line_management.Schema.{LineRow}
use mooring_line_management.Api.Keys.{LineFilters, Condition, Placement}

-- Whether `a.localeCompare(b) <= 0`; the answer for `(b, a)` has the opposite sign.
pub record Collation : Type 0 where
  pub locale_le : String → String → Bool
  pub total : (a b : String) → locale_le a b ≡ false → locale_le b a ≡ true
  pub trans : (a b c : String) → locale_le a b ≡ true → locale_le b c ≡ true → locale_le a c ≡ true

pub data SortKey : Type 0 where
  name product_name maker_name line_type_name location_label current_condition_status current_side
        install_age_days lifecycle_status :
      SortKey

pub data Dir : Type 0 where
  ascending descending : Dir

pub record Sort : Type 0 where
  pub key : SortKey
  pub dir : Dir

-- The columns of the table, in their order.
abbrev pub columns : List (SortKey × String)
columns =
    (name, "Line")
    ∷ (product_name, "Product")
    ∷ (line_type_name, "Type")
    ∷ (location_label, "Location")
    ∷ (current_condition_status, "Condition")
    ∷ (current_side, "Side")
    ∷ (install_age_days, "Install age")
    ∷ (lifecycle_status, "Status")
    ∷ []

-- `r[key] ?? ""`, a number or a text.
pub data Cell : Type 0 where
  number : ℤ → Cell
  text : String → Cell

unfoldable pub cell : SortKey → LineRow → Cell
cell name r = text r.name
cell product_name r = text r.product_name
cell maker_name r = text r.maker_name
cell line_type_name r = text r.line_type_name
cell location_label r = text r.location_label
cell current_condition_status r = text (or_else r.current_condition_status "")
cell current_side r = text (or_else r.current_side "")
cell install_age_days r = number r.install_age_days
cell lifecycle_status r = text r.lifecycle_status

module _ (c : Collation) where
  -- Two cells of one column; a number is never compared with a text.
  cell_le : Cell → Cell → Bool
  cell_le (number a) (number b) = int_le a b
  cell_le (text a) (text b) = c.locale_le a b
  cell_le (number a) (text b) = true
  cell_le (text a) (number b) = false

  in_dir : Dir → Cell → Cell → Bool
  unfolding cell_le
  in_dir ascending a b = cell_le a b
  in_dir descending a b = cell_le b a

  -- `compare(a, b) * dir <= 0`
  unfoldable pub row_le : Sort → LineRow → LineRow → Bool
  unfolding cell in_dir
  row_le s a b = in_dir s.dir (cell s.key a) (cell s.key b)

  unfoldable pub rows : Sort → List LineRow → List LineRow
  unfolding row_le
  rows s items = sort_by (row_le s) items

key_number : SortKey → ℕ
key_number name = 0
key_number product_name = 1
key_number maker_name = 2
key_number line_type_name = 3
key_number location_label = 4
key_number current_condition_status = 5
key_number current_side = 6
key_number install_age_days = 7
key_number lifecycle_status = 8

unfoldable pub same_key : SortKey → SortKey → Bool
unfolding key_number
same_key j k = key_number j == key_number k

-- The direction after a click on the head of the sorted column, or of another one.
abbrev pub turned : Bool → Dir → Dir
turned true ascending = descending
turned _ _ = ascending

-- A click on a column's head.
unfoldable pub click : SortKey → Sort → Sort
unfolding same_key
click key s = record { key = key; dir = turned (same_key s.key key) s.dir }

-- The page's inputs; `""` is "all".
pub record Inputs : Type 0 where
  pub q : Option String
  pub condition : Option Condition
  pub line_type_id : String
  pub placement : Option Placement

unfoldable pub request_filters : Inputs → LineFilters
request_filters i = record {
  line_type_id = or_undefined i.line_type_id;
  condition = i.condition;
  placement = i.placement;
  q = or_undefined (or_else i.q "");
}

-- The search box writes the address: an empty search leaves no parameter.
unfoldable pub search : String → Inputs → Inputs
search s i = record i { q = or_undefined s }
