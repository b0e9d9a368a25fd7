-- ===== src/Maps.antt =====
-- Map of JavaScript with texts as keys: its entries in the order of their insertion.
pub mod Keys
use recif.Base.{
  ◌≡◌, refl, ap, ◌∙◌, ◌≢◌, Bool, true, false, not, ◌&&◌, Option, none, some, List, [], ◌∷◌, ◌++◌,
  filter, if◌then◌else◌, arith, Bool-cases, inl, inr, ==_iff, ◌==◌, ℕ,
}
use recif.Text.{Text, text_eq}

abbrev pub Map {ℓ} : Type ℓ → Type ℓ
Map A = List (Text × A)

module _ {ℓ} {A : Type ℓ} where
  -- `m.get(k)`
  unfoldable pub map_get : Text → Map A → Option A
  map_get k [] = none
  map_get k ((j, a) ∷ m) = if text_eq j k then some a else map_get k m

  -- `m.set(k, a)`: a key that is there keeps its place.
  unfoldable pub map_set : Text → A → Map A → Map A
  map_set k a [] = (k, a) ∷ []
  map_set k a ((j, b) ∷ m) =
      let rest = map_set k a m in if text_eq j k then (j, a) ∷ m else (j, b) ∷ rest

  -- `m.delete(k)`
  unfoldable pub map_delete : Text → Map A → Map A
  map_delete k = filter (λ e. not (text_eq e.0 k))
