-- ===== src/Tests/Register.antt =====
-- The registration dialog, the register's table and a line's record.
use Prim.Native.String
use mathlib.Core.List.{Perm}
use mooring_line_management.Base.{
  ◌↔◌, Ordered, List, All, ℕ, ◌≡◌, ◌↔◌, refl, String, true, false, not, none, some, [], ◌∷◌, Memᴰ,
  arith, ltb,
}
use mooring_line_management.Int.{pos}
use mooring_line_management.Schema.{Line}
use mooring_line_management.Api.Http.{move_failed, Outcome, resolved, rejected}
use mooring_line_management.Register.Add.{Form, blank, register, move, to_drum, line_body, submit}
use mooring_line_management.Register.Add.Placement.{submit-spare_first}
use mooring_line_management.Register.Add.Dialog.{
  Field, DialogEvent, set, click, settled, opened, requests, HasNames, requests-HasNames,
}
use mooring_line_management.Register.Table.{
  Collation, Sort, name, install_age_days, ascending, descending, rows,
}
use mooring_line_management.Register.Table.Order.{InOrder, rows-Ordered}
use mooring_line_management.Tests.Panel.{aboard}

pub metres : String → ℕ
metres s = 220

abbrev pub filled : Form
filled = record blank {
  product_id = "p";
  name = "Stern line";
  serial_number = "S9";
  length = "220";
}

abbrev pub occupied_drum : String → Outcome (Unit {0})
occupied_drum id = rejected (move_failed 409 "That drum already holds a line.")

-- A placement that fails, and a second click.
abbrev clicked_twice : List DialogEvent
clicked_twice =
    set Field.product_id "p"
    ∷ set Field.name "Stern line"
    ∷ click
    ∷ set Field.serial_number "S9"
    ∷ set Field.length "220"
    ∷ click
    ∷ settled (resolved "l9") occupied_drum
    ∷ click
    ∷ settled (resolved "l10") occupied_drum
    ∷ []

-- The line is registered a second time.
clicked_twice-requests :
    requests metres (some "d1") clicked_twice opened
    ≡ register (line_body metres (some "d1") filled)
      ∷ move "l9" (to_drum "d1")
      ∷ register (line_body metres (some "d1") filled)
      ∷ move "l10" (to_drum "d1")
      ∷ []
unfolding requests line_body
clicked_twice-requests = refl

requests-HasNames_example : All HasNames (requests metres (some "d1") clicked_twice opened)
requests-HasNames_example = requests-HasNames metres (some "d1") clicked_twice

submit-spare_first_example :
    (◌≡◌ {A = Outcome String} (resolved "l9") (resolved "l9"))
    × ((submit metres (some "d1") filled (resolved "l9") occupied_drum).calls
        ≡ register (line_body metres (some "d1") filled) ∷ move "l9" (to_drum "d1") ∷ [])
    × ((line_body metres (some "d1") filled).lifecycle_status ≡ "spare")
    × ((to_drum "d1").to_drum_id ≡ some "d1")
unfolding submit line_body
submit-spare_first_example =
    submit-spare_first metres (some "d1") filled (resolved "l9") occupied_drum "l9" (to_drum "d1")
      (Memᴰ.tail (Memᴰ.head refl))

longer :
    (a b : String)
    → ltb (String.count b) (String.count a) ≡ true
    → ltb (String.count a) (String.count b) ≡ false
longer a b h = ground arith

by_count : Collation
by_count = record {
  locale_le = λ a b. not (ltb (String.count b) (String.count a));
  total = λ a b h. ground arith;
  trans = λ a b c h k. ground arith;
}

abbrev youngest_last : Sort
youngest_last = record { key = install_age_days; dir = descending }

rows-Ordered_example :
    Ordered (InOrder by_count install_age_days descending) (rows by_count youngest_last aboard)
    × Perm (rows by_count youngest_last aboard) aboard
rows-Ordered_example = rows-Ordered by_count install_age_days descending aboard

abbrev by_name : Sort
by_name = record { key = name; dir = ascending }

abbrev bow_record : Line ℕ
bow_record = record {
  build_age_days = pos 400;
  can_be_turned = true;
  certificate_number = none;
  certificate_ref = none;
  construction_type = none;
  current_condition_status = some "Good";
  current_drum_id = some "d1";
  current_side = some "A";
  current_storage_id = none;
  id = "l1";
  install_age_days = pos 300;
  installation_date = none;
  installed = true;
  length = none;
  lifecycle_status = "active";
  line_type_name = "Rope";
  location_label = "FWD-P1";
  maker_name = "M";
  manufacture_date = none;
  name = "Bow line";
  next_inspection_due = none;
  parent_line_id = none;
  product_id = "p";
  product_name = "P";
  serial_number = "S1";
  side_a_age_days = pos 200;
  side_a_change_date = none;
  side_a_condition = none;
  side_b_age_days = pos 100;
  side_b_change_date = none;
  side_b_condition = none;
  tag_number = none;
  turn_due = false;
  vessel_id = "v";
}
