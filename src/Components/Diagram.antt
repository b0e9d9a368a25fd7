-- ===== src/Components/Diagram.antt =====
-- autoLayout of dashboard/src/components/agui/flow-diagram.tsx: the nodes of a diagram on a grid that
-- is as wide as the square root of their number, which the diagram uses for the nodes that have no
-- position of their own.
use recif.Base.{
  ℕ, zero, suc, ◌+◌, ◌*◌, ◌/◌, ◌%◌, ◌≤◌, ◌<◌, ◌≡◌, ◌≢◌, refl, sym, ap, ap₂, ◌∙◌, false, leb, ltb,
  Bool-cases, inl, inr, some, List, [], ◌∷◌, length, get_elem?, if◌then◌else◌, arith,
}
use native.Mathlib.Nat.{div-add-mod, div-lt_iff_lt-mul, mod-lt}

pub data Direction : Type 0 where
  top_bottom left_right : Direction

pub record Position : Type 0 where
  pub x : ℕ
  pub y : ℕ

-- `Math.ceil(Math.sqrt(n))`: the least number whose square is at least `n`, looked for from `c` on.
unfoldable pub ceil_sqrt_from : ℕ → ℕ → ℕ → ℕ
ceil_sqrt_from zero c n = c
ceil_sqrt_from (suc fuel) c n =
    let rest = ceil_sqrt_from fuel (c + 1) n in if leb n (c * c) then c else rest

unfoldable pub ceil_sqrt : ℕ → ℕ
ceil_sqrt n = ceil_sqrt_from n 0 n

-- The place of the node `i` where there are `cols` columns.
unfoldable pub place : Direction → ℕ → ℕ → Position
place left_right cols i = record { x = i / cols * 220; y = i % cols * 120 }
place top_bottom cols i = record { x = i % cols * 200; y = i / cols * 140 }

-- The places of `count` nodes from the node `i` on.
unfoldable pub places_from : Direction → ℕ → ℕ → ℕ → List Position
places_from d cols i zero = []
places_from d cols i (suc count) = place d cols i ∷ places_from d cols (i + 1) count

unfoldable pub auto_layout : Direction → ℕ → List Position
auto_layout d n = places_from d (ceil_sqrt n) 0 n

square-above : (n c : ℕ) → n ≤ c → 1 ≤ c → n ≤ c * c
square-above n c h k = grind arith

ceil_sqrt_from-enough :
    (fuel c n : ℕ)
    → n ≤ c + fuel
    → 1 ≤ c + fuel
    → n ≤ ceil_sqrt_from fuel c n * ceil_sqrt_from fuel c n
unfolding ceil_sqrt_from
ceil_sqrt_from-enough zero c n h k = square-above n c (omega (arith, h)) (omega (arith, k))
ceil_sqrt_from-enough (suc fuel) c n h k = elim (Bool-cases (leb n (c * c))) [
  | inl done ↦ rw done (ground (arith, done))
  | inr more ↦ rw more (ceil_sqrt_from-enough fuel (c + 1) n (omega (arith, h)) (omega arith))
]

k-eq : (k c : ℕ) → k < c + 1 → ltb k c ≡ false → k ≡ c
k-eq k c h equal = ground (arith, h, equal)

-- The square of every smaller number is below `n`.
ceil_sqrt_from-least :
    (fuel c n m : ℕ) → ((k : ℕ) → k < c → k * k < n) → m < ceil_sqrt_from fuel c n → m * m < n
unfolding ceil_sqrt_from
ceil_sqrt_from-least zero c n m below h = below m h
ceil_sqrt_from-least (suc fuel) c n m below h = elim (Bool-cases (leb n (c * c))) [
  | inl done ↦ below m (rw done at h)
  | inr more ↦
      ceil_sqrt_from-least fuel (c + 1) n m
        (λ k lt. elim (Bool-cases (ltb k c)) [
          | inl smaller ↦ below k (ground (arith, smaller))
          | inr equal ↦ rw (k-eq k c lt equal) (ground (arith, more))
        ])
        (rw more at h)
]

-- The number of columns is the least whose square has room for all nodes.
pub le-ceil_sqrt : (n : ℕ) → n ≤ ceil_sqrt n * ceil_sqrt n
unfolding ceil_sqrt
le-ceil_sqrt zero = omega arith
le-ceil_sqrt (suc n) = ceil_sqrt_from-enough (suc n) 0 (suc n) (omega arith) (omega arith)

pub ceil_sqrt-least : (n m : ℕ) → m < ceil_sqrt n → m * m < n
unfolding ceil_sqrt
ceil_sqrt-least n m h = ceil_sqrt_from-least n 0 n m (λ k lt. absurd (omega (arith, lt))) h

length-places_from :
    (d : Direction) (cols i count : ℕ) → length (places_from d cols i count) ≡ count
unfolding places_from
length-places_from d cols i zero = refl
length-places_from d cols i (suc count) = omega (arith, length-places_from d cols (i + 1) count)

get_elem?-places_from :
    (d : Direction) (cols i count k : ℕ) (p : Position)
    → get_elem? (places_from d cols i count) k ≡ some p
    → (p ≡ place d cols (i + k)) × (k < count)
unfolding places_from
get_elem?-places_from d cols i zero k p h = absurd (cc h)
get_elem?-places_from d cols i (suc count) zero p h = ground (arith, h)
get_elem?-places_from d cols i (suc count) (suc k) p h =
    ground (arith, h, get_elem?-places_from d cols (i + 1) count k p h)

same_of-div_mod : (a b cols : ℕ) → a / cols ≡ b / cols → a % cols ≡ b % cols → a ≡ b
same_of-div_mod a b cols q r =
    sym (div-add-mod a cols) ∙ ap₂ (λ x y. cols * x + y) q r ∙ div-add-mod b cols

place-injective : (d : Direction) (cols i j : ℕ) → place d cols i ≡ place d cols j → i ≡ j
unfolding place
place-injective top_bottom cols i j e =
    same_of-div_mod i j cols (omega (arith, ap (λ (p : Position). p.y) e))
      (omega (arith, ap (λ (p : Position). p.x) e))
place-injective left_right cols i j e =
    same_of-div_mod i j cols (omega (arith, ap (λ (p : Position). p.x) e))
      (omega (arith, ap (λ (p : Position). p.y) e))

row-lt : (i cols n : ℕ) → i < n → n ≤ cols * cols → i / cols < cols
row-lt i zero n h k = absurd (omega (arith, h, k))
row-lt i (suc cols) n h k = (div-lt_iff_lt-mul (omega arith)).1 (omega (arith, h, k))

-- Both coordinates lie on a grid of `cols` columns and rows.
place_bounds :
    (d : Direction) (cols i n : ℕ)
    → i < n
    → n ≤ cols * cols
    → ((place d cols i).x < cols * 220) × ((place d cols i).y < cols * 140)
unfolding place
place_bounds d zero i n h k = absurd (omega (arith, h, k))
place_bounds top_bottom (suc cols) i n h k =
    (omega (arith, mod-lt i {m = suc cols} (omega arith)), omega (arith, row-lt i (suc cols) n h k))
place_bounds left_right (suc cols) i n h k =
    (omega (arith, row-lt i (suc cols) n h k), omega (arith, mod-lt i {m = suc cols} (omega arith)))

-- A diagram has as many places as nodes, and each lies on a square grid, of 220 by 140 points a cell,
-- whose number of cells is at least the number of nodes.
pub auto_layout_bounds :
    (d : Direction) (n i : ℕ) (p : Position)
    → get_elem? (auto_layout d n) i ≡ some p
    → (length (auto_layout d n) ≡ n)
      × (p.x < ceil_sqrt n * 220)
      × (p.y < ceil_sqrt n * 140)
      × (n ≤ ceil_sqrt n * ceil_sqrt n)
unfolding auto_layout
auto_layout_bounds d n i p h =
    let (at_i, lt) = get_elem?-places_from d (ceil_sqrt n) 0 n i p h in
    let (in_x, in_y) =
      place_bounds d (ceil_sqrt n) (0 + i) n (omega (arith, lt)) (le-ceil_sqrt n) in
    (length-places_from d (ceil_sqrt n) 0 n, rw at_i in_x, rw at_i in_y, le-ceil_sqrt n)

-- The places that autoLayout gives to two different nodes of a diagram differ.
pub auto_layout-apart :
    (d : Direction) (n i j : ℕ) (p q : Position)
    → get_elem? (auto_layout d n) i ≡ some p
    → get_elem? (auto_layout d n) j ≡ some q
    → i ≢ j
    → ¬ (p ≡ q)
unfolding auto_layout
auto_layout-apart d n i j p q h k apart e =
    let (at_i, _) = get_elem?-places_from d (ceil_sqrt n) 0 n i p h in
    let (at_j, _) = get_elem?-places_from d (ceil_sqrt n) 0 n j q k in
    apart (omega (arith, place-injective d (ceil_sqrt n) (0 + i) (0 + j) (sym at_i ∙ e ∙ at_j)))
