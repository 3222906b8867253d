-- ===== src/Register/Table/Order.antt =====
-- The order of the register's rows.
use mathlib.Core.List.{Perm}
use mooring_line_management.Base.{
  Ordered, Ordered-Sorted, sort_by-perm, or_else, ◌≡◌, refl, true, false, List, sort_by-Sorted,
  ==_iff, ◌≢◌, sym, ap, ◌∙◌,
}
use mooring_line_management.Int.{int_le, int_le_total, int_le_trans}
use mooring_line_management.Schema.{LineRow}
use mooring_line_management.Register.Table.{
  Collation, SortKey, name, product_name, maker_name, line_type_name, location_label,
  current_condition_status, current_side, install_age_days, lifecycle_status, Dir, ascending,
  descending, Sort, Cell, number, text, cell, cell_le, row_le, rows, click, same_key, key_number,
  turned, in_dir,
}

module _ (c : Collation) where
  cell_le_total : (a b : Cell) → cell_le c a b ≡ false → cell_le c b a ≡ true
  unfolding cell_le
  cell_le_total (number a) (number b) h = int_le_total a b h
  cell_le_total (text a) (text b) h = c.total a b h
  cell_le_total (number a) (text b) h = cc
  cell_le_total (text a) (number b) h = refl

  cell_le_trans :
      (a b d : Cell) → cell_le c a b ≡ true → cell_le c b d ≡ true → cell_le c a d ≡ true
  unfolding cell_le
  cell_le_trans (number a) (number b) (number d) h k = int_le_trans a b d h k
  cell_le_trans (text a) (text b) (text d) h k = c.trans a b d h k
  cell_le_trans (number a) b (text d) h k = refl
  cell_le_trans (text a) (number b) d h k = cc
  cell_le_trans (number a) (text b) (number d) h k = cc
  cell_le_trans (text a) (text b) (number d) h k = cc

  in_dir_total : (d : Dir) (a b : Cell) → in_dir c d a b ≡ false → in_dir c d b a ≡ true
  unfolding in_dir
  in_dir_total ascending a b h = cell_le_total a b h
  in_dir_total descending a b h = cell_le_total b a h

  in_dir_trans :
      (d : Dir) (a b e : Cell)
      → in_dir c d a b ≡ true
      → in_dir c d b e ≡ true
      → in_dir c d a e ≡ true
  unfolding in_dir
  in_dir_trans ascending a b e h k = cell_le_trans a b e h k
  in_dir_trans descending a b e h k = cell_le_trans e b a k h

  row_le_total : (s : Sort) (a b : LineRow) → row_le c s a b ≡ false → row_le c s b a ≡ true
  unfolding row_le
  row_le_total s a b h = in_dir_total s.dir (cell s.key a) (cell s.key b) h

  row_le_trans :
      (s : Sort) (a b d : LineRow)
      → row_le c s a b ≡ true
      → row_le c s b d ≡ true
      → row_le c s a d ≡ true
  unfolding row_le
  row_le_trans s a b d h k = in_dir_trans s.dir (cell s.key a) (cell s.key b) (cell s.key d) h k

  -- One line stands before another, or beside it, in a column: by the texts of the column, an absent
  -- one counting as empty, or by the days of the age.
  abbrev pub Before : SortKey → LineRow → LineRow → Type 0
  Before name a b = c.locale_le a.name b.name ≡ true
  Before product_name a b = c.locale_le a.product_name b.product_name ≡ true
  Before maker_name a b = c.locale_le a.maker_name b.maker_name ≡ true
  Before line_type_name a b = c.locale_le a.line_type_name b.line_type_name ≡ true
  Before location_label a b = c.locale_le a.location_label b.location_label ≡ true
  Before current_condition_status a b =
      c.locale_le (or_else a.current_condition_status "") (or_else b.current_condition_status "")
      ≡ true
  Before current_side a b =
      c.locale_le (or_else a.current_side "") (or_else b.current_side "") ≡ true
  Before install_age_days a b = int_le a.install_age_days b.install_age_days ≡ true
  Before lifecycle_status a b = c.locale_le a.lifecycle_status b.lifecycle_status ≡ true

  abbrev pub InOrder : SortKey → Dir → LineRow → LineRow → Type 0
  InOrder k ascending a b = Before k a b
  InOrder k descending a b = Before k b a

  cell_le-Before :
      (k : SortKey) (a b : LineRow) → cell_le c (cell k a) (cell k b) ≡ true → Before k a b
  unfolding cell_le cell
  cell_le-Before name a b h = h
  cell_le-Before product_name a b h = h
  cell_le-Before maker_name a b h = h
  cell_le-Before line_type_name a b h = h
  cell_le-Before location_label a b h = h
  cell_le-Before current_condition_status a b h = h
  cell_le-Before current_side a b h = h
  cell_le-Before install_age_days a b h = h
  cell_le-Before lifecycle_status a b h = h

  in_dir-InOrder :
      (k : SortKey) (d : Dir) (a b : LineRow)
      → in_dir c d (cell k a) (cell k b) ≡ true
      → InOrder k d a b
  unfolding in_dir
  in_dir-InOrder k ascending a b h = cell_le-Before k a b h
  in_dir-InOrder k descending a b h = cell_le-Before k b a h

  -- The table shows exactly the lines of the answer, each as often, ascending or descending, as chosen, in
  -- the chosen column, for any comparison of texts that is total and transitive.
  pub rows-Ordered :
      (k : SortKey) (d : Dir) (items : List LineRow)
      → let shown = rows c (record { key = k; dir = d }) items in
        Ordered (InOrder k d) shown × Perm shown items
  unfolding rows row_le
  rows-Ordered k d items =
      let s : Sort = record { key = k; dir = d } in
      (
        Ordered-Sorted (InOrder k d) (row_le c s) _ (λ a b h. in_dir-InOrder k d a b h)
            (sort_by-Sorted (row_le c s) (row_le_total s) (row_le_trans s) items),
        sort_by-perm (row_le c s) items,
      )

turned_twice : (d : Dir) → turned true (turned true d) ≡ d
turned_twice ascending = refl
turned_twice descending = refl

turned-ne : (d : Dir) → turned true d ≢ d
turned-ne ascending h = descending-ne-ascending h
  where
    descending-ne-ascending : descending ≢ ascending
    descending-ne-ascending e = cc
turned-ne descending h = ascending-ne-descending h
  where
    ascending-ne-descending : ascending ≢ descending
    ascending-ne-descending e = cc

same_key_refl : (k : SortKey) → same_key k k ≡ true
unfolding same_key
same_key_refl k = (==_iff (key_number k) (key_number k)).1 refl

-- A second click on a column's head reverses the order, a third one restores it, whatever the order was
-- before the first one; and a first click on another column sorts upwards.
pub click-click :
    (k : SortKey) (s : Sort)
    → ((click k (click k s)).dir ≢ (click k s).dir)
      × ((click k (click k (click k s))).dir ≡ (click k s).dir)
      × (same_key s.key k ≡ false → (click k s).dir ≡ ascending)
unfolding click
click-click k s = (
  λ h.
      turned-ne _
        (sym (ap (λ b. turned b (turned (same_key s.key k) s.dir)) (same_key_refl k)) ∙ h),
  ap (λ b. turned b (turned b (turned (same_key s.key k) s.dir))) (same_key_refl k)
      ∙ turned_twice (turned (same_key s.key k) s.dir),
  λ h. rw h refl,
)
