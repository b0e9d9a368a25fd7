-- ===== src/Tables/Order.antt =====
-- The order of the rows of a table.
use recif.Base.{
  ◌≡◌, refl, ap, ◌∙◌, Bool, true, false, not, Bool-cases, inl, inr, Option, none, some, List, [],
  ◌∷◌, ◌++◌, filter, All, arith, if◌then◌else◌,
}
use recif.Text.{Text}
use recif.Text.Equality.{text_eq_refl}
use recif.Json.{Json, Fields, get_field}
use recif.Tables.{
  SortDir, asc, desc, Sorting, unsorted, next_dir, is_desc, is_sorted_by, handle_sort, Ordered,
  less, equal, greater, is_nullish, compare_rows, insert_row, sort_rows,
}

handle_sort-again :
    (col : Text) (d : Option SortDir)
    → handle_sort col (record { sort_col = some col; sort_dir = d })
      ≡ record { sort_col = if is_desc d then none else some col; sort_dir = next_dir d }
unfolding handle_sort is_sorted_by
handle_sort-again col d = rw (text_eq_refl col) refl

handle_sort-first :
    (col : Text) (s : Sorting)
    → is_sorted_by col s ≡ false
    → handle_sort col s ≡ record { sort_col = some col; sort_dir = some asc }
unfolding handle_sort
handle_sort-first col s h = rw h refl

-- Three clicks on the head of a column that is not sorted sort it up, sort it down, and give the
-- table back as it came.
pub handle_sort-cycle :
    (col : Text) (s : Sorting)
    → is_sorted_by col s ≡ false
    → (handle_sort col s ≡ record { sort_col = some col; sort_dir = some asc })
      × (handle_sort col (handle_sort col s) ≡ record { sort_col = some col; sort_dir = some desc })
      × (handle_sort col (handle_sort col (handle_sort col s)) ≡ unsorted)
handle_sort-cycle col s h =
    let once = handle_sort-first col s h in
    let twice = ap (handle_sort col) once ∙ handle_sort-again col (some asc) in
    (once, twice, ap (handle_sort col) twice ∙ handle_sort-again col (some desc))

module _ (compare : Json → Json → Ordered) (col : Text) (dir : SortDir) where
  -- Whether a row has no value in the column.
  abbrev pub is_blank : Fields → Bool
  is_blank row = is_nullish (get_field col row)

  abbrev pub is_filled : Fields → Bool
  is_filled row = not (is_blank row)

  compare_rows-blank :
      (x y : Fields)
      → is_blank x ≡ true
      → is_blank y ≡ false
      → compare_rows compare col dir x y ≡ greater
  unfolding compare_rows
  compare_rows-blank x y h k = rw (h, k) refl

  insert_row-greater :
      (x y : Fields) (ys : List Fields)
      → compare_rows compare col dir x y ≡ greater
      → insert_row compare col dir x (y ∷ ys) ≡ y ∷ insert_row compare col dir x ys
  unfolding insert_row
  insert_row-greater x y ys e = rw (insert_row, e) refl

  insert_row-blank :
      (x : Fields) (ys zs : List Fields)
      → is_blank x ≡ true
      → All (λ y. is_blank y ≡ false) ys
      → All (λ z. is_blank z ≡ true) zs
      → insert_row compare col dir x (ys ++ zs) ≡ ys ++ x ∷ zs
  unfolding insert_row compare_rows
  insert_row-blank x [] [] h _ _ = refl
  insert_row-blank x [] (z ∷ zs) h _ (k, _) = ground (arith, h, k)
  insert_row-blank x (y ∷ ys) zs h (k, f) g =
      rw (insert_row-greater x y (ys ++ zs) (compare_rows-blank x y h k))
        (ap (y ∷◌) (insert_row-blank x ys zs h f g))

  compare_rows-filled :
      (x z : Fields)
      → is_blank x ≡ false
      → is_blank z ≡ true
      → compare_rows compare col dir x z ≡ less
  unfolding compare_rows
  compare_rows-filled x z h k = rw (h, k) refl

  insert_row-filled :
      (x : Fields) (ys zs : List Fields)
      → is_blank x ≡ false
      → All (λ z. is_blank z ≡ true) zs
      → insert_row compare col dir x (ys ++ zs) ≡ insert_row compare col dir x ys ++ zs
  unfolding insert_row
  insert_row-filled x [] [] h _ = refl
  insert_row-filled x [] (z ∷ zs) h (k, _) = rw (insert_row, compare_rows-filled x z h k) refl
  insert_row-filled x (y ∷ ys) zs h g =
      by_order (compare_rows compare col dir x y) refl (insert_row-filled x ys zs h g)
    where
      by_order :
          (o : Ordered)
          → compare_rows compare col dir x y ≡ o
          → insert_row compare col dir x (ys ++ zs) ≡ insert_row compare col dir x ys ++ zs
          → insert_row compare col dir x ((y ∷ ys) ++ zs)
            ≡ insert_row compare col dir x (y ∷ ys) ++ zs
      by_order less e rest = rw (insert_row, e) refl
      by_order equal e rest = rw (insert_row, e) refl
      by_order greater e rest = rw (insert_row, e) (ap (y ∷◌) rest)

  insert_row-All :
      (x : Fields) (ys : List Fields)
      → is_blank x ≡ false
      → All (λ y. is_blank y ≡ false) ys
      → All (λ y. is_blank y ≡ false) (insert_row compare col dir x ys)
  unfolding insert_row
  insert_row-All x [] h _ = (h, tt)
  insert_row-All x (y ∷ ys) h (k, f) =
      by_order (compare_rows compare col dir x y) refl (insert_row-All x ys h f)
    where
      by_order :
          (o : Ordered)
          → compare_rows compare col dir x y ≡ o
          → All (λ y. is_blank y ≡ false) (insert_row compare col dir x ys)
          → All (λ y. is_blank y ≡ false) (insert_row compare col dir x (y ∷ ys))
      by_order less e rest = rw (insert_row, e) (h, (k, f))
      by_order equal e rest = rw (insert_row, e) (h, (k, f))
      by_order greater e rest = rw (insert_row, e) (k, rest)

  sort_rows-All :
      (rows : List Fields)
      → All (λ y. is_blank y ≡ false) (sort_rows compare col dir (filter is_filled rows))
  unfolding sort_rows
  sort_rows-All [] = tt
  sort_rows-All (x ∷ rows) = elim (Bool-cases (is_blank x)) [
    | inl blank ↦ rw blank (sort_rows-All rows)
    | inr filled ↦ rw filled (insert_row-All x _ filled (sort_rows-All rows))
  ]

  filter-All : (rows : List Fields) → All (λ z. is_blank z ≡ true) (filter is_blank rows)
  filter-All [] = tt
  filter-All (x ∷ rows) = elim (Bool-cases (is_blank x)) [
    | inl blank ↦ rw blank (blank, filter-All rows)
    | inr filled ↦ rw filled (filter-All rows)
  ]

  -- Sorting puts the rows that have a value in front, sorted among themselves, and leaves those
  -- without one behind them as they came, whichever the direction is.
  pub sort_rows-blanks :
      (rows : List Fields)
      → sort_rows compare col dir rows
        ≡ sort_rows compare col dir (filter is_filled rows) ++ filter is_blank rows
  unfolding sort_rows
  sort_rows-blanks [] = refl
  sort_rows-blanks (x ∷ rows) = elim (Bool-cases (is_blank x)) [
    | inl blank ↦ rw blank (
        ap (insert_row compare col dir x) (sort_rows-blanks rows)
        ∙ insert_row-blank x _ (filter is_blank rows) blank (sort_rows-All rows) (filter-All rows))
    | inr filled ↦ rw filled (
        ap (insert_row compare col dir x) (sort_rows-blanks rows)
        ∙ insert_row-filled x _ (filter is_blank rows) filled (filter-All rows))
  ]
