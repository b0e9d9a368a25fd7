-- ===== src/Tables.antt =====
-- The table component of the chat, dashboard/src/components/agui/data-table.tsx: which column is
-- sorted, and the order of the rows. Array.prototype.sort is stable, so insertion from the right,
-- in front of the rows that compare as equal, gives its result.
pub mod Order
mod Tests
use recif.Base.{Bool, true, false, not, Option, none, some, List, [], ◌∷◌, filter, if◌then◌else◌}
use recif.Text.{Text, text_eq}
use recif.Json.{Json, null, get_field, Fields}

pub data SortDir : Type 0 where
  asc desc : SortDir

-- sortCol and sortDir
pub record Sorting : Type 0 where
  pub sort_col : Option Text
  pub sort_dir : Option SortDir

abbrev pub unsorted : Sorting
unsorted = record { sort_col = none; sort_dir = none }

-- The updater of the direction.
abbrev pub next_dir : Option SortDir → Option SortDir
next_dir none = some asc
next_dir (some asc) = some desc
next_dir (some desc) = none

abbrev pub is_desc : Option SortDir → Bool
is_desc none = false
is_desc (some asc) = false
is_desc (some desc) = true

unfoldable pub is_sorted_by : Text → Sorting → Bool
is_sorted_by col s = elim s.sort_col [ some c ↦ text_eq c col | none ↦ false ]

unfoldable pub handle_sort : Text → Sorting → Sorting
handle_sort col s =
    if is_sorted_by col s
    then record {
      sort_col = if is_desc s.sort_dir then none else s.sort_col;
      sort_dir = next_dir s.sort_dir;
    }
    else record { sort_col = some col; sort_dir = some asc }

-- What a comparison of two values comes to.
pub data Ordered : Type 0 where
  less equal greater : Ordered

abbrev pub flip : Ordered → Ordered
flip less = greater
flip equal = equal
flip greater = less

-- `v == null`: the field is missing, or null.
unfoldable pub is_nullish : Option Json → Bool
is_nullish none = true
is_nullish (some null) = true
is_nullish (some _) = false

-- `compare` is the numbers' difference or else localeCompare on the texts of two values.
module _ (compare : Json → Json → Ordered) where
  -- The comparison of two values that are not nullish.
  unfoldable pub compare_values : SortDir → Option Json → Option Json → Ordered
  compare_values dir (some v) (some w) = elim dir [ asc ↦ compare v w | desc ↦ flip (compare v w) ]
  compare_values dir _ _ = equal

  -- The comparator of the rows.
  unfoldable pub compare_rows : Text → SortDir → Fields → Fields → Ordered
  compare_rows col dir a b =
      let v = get_field col a in
      let w = get_field col b in
      if is_nullish v
      then if is_nullish w then equal else greater
      else if is_nullish w
      then less
      else compare_values dir v w

  unfoldable pub insert_row : Text → SortDir → Fields → List Fields → List Fields
  insert_row col dir x [] = x ∷ []
  insert_row col dir x (y ∷ ys) =
      let rest = insert_row col dir x ys in
      elim (compare_rows col dir x y) [
        | less ↦ x ∷ y ∷ ys
        | equal ↦ x ∷ y ∷ ys
        | greater ↦ y ∷ rest
      ]

  unfoldable pub sort_rows : Text → SortDir → List Fields → List Fields
  sort_rows col dir [] = []
  sort_rows col dir (x ∷ xs) = insert_row col dir x (sort_rows col dir xs)

  -- sortedRows; an empty column name is falsy.
  unfoldable pub sorted_rows : Sorting → List Fields → List Fields
  sorted_rows s rows = elim s.sort_col [
    | some [] ↦ rows
    | some (c ∷ col) ↦ elim s.sort_dir [ some dir ↦ sort_rows (c ∷ col) dir rows | none ↦ rows ]
    | none ↦ rows
  ]
