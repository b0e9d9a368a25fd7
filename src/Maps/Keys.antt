-- ===== src/Maps/Keys.antt =====
-- A Map has each key once, and every operation keeps it so.
use recif.Base.{
  ◌≡◌, refl, sym, ap, ◌∙◌, false, none, some, arith, [], ◌∷◌, ◌++◌, All, Bool-cases, inl, inr,
  if◌then◌else◌,
}
use recif.Text.{Text, text_eq}
use recif.Text.Equality.{text_eq_refl, text_eq_sound, text_eq_comm}
use recif.Maps.{Map, map_get, map_set, map_delete}

module _ {ℓ} {A : Type ℓ} where
  -- No entry has the key `k`.
  abbrev pub IsFresh : Text → Map A → Type 0
  IsFresh k = All (λ e. text_eq e.0 k ≡ false)

  abbrev pub HasKeys : Map A → Type 0
  HasKeys [] = Unit
  HasKeys (e ∷ m) = IsFresh e.0 m × HasKeys m

  pub map_delete-IsFresh : (k : Text) (m : Map A) → IsFresh k m → map_delete k m ≡ m
  unfolding map_delete
  map_delete-IsFresh k [] _ = refl
  map_delete-IsFresh k (e ∷ m) (h, f) = rw h (ap (e ∷◌) (map_delete-IsFresh k m f))

  -- An entry whose key no other has is deleted alone.
  pub map_delete-between :
      (e : Text × A) (kept m : Map A)
      → IsFresh e.0 kept
      → IsFresh e.0 m
      → map_delete e.0 (kept ++ e ∷ m) ≡ kept ++ m
  unfolding map_delete
  map_delete-between e [] m _ g = rw (text_eq_refl e.0) (map_delete-IsFresh e.0 m g)
  map_delete-between e (d ∷ kept) m (h, f) g = rw h (ap (d ∷◌) (map_delete-between e kept m f g))

  map_set-IsFresh :
      (j k : Text) (a : A) (m : Map A)
      → text_eq k j ≡ false
      → IsFresh j m
      → IsFresh j (map_set k a m)
  unfolding map_set
  map_set-IsFresh j k a [] h _ = (h, tt)
  map_set-IsFresh j k a ((i, b) ∷ m) h (f, fs) = elim (Bool-cases (text_eq i k)) [
    | inl same ↦ rw same (f, fs)
    | inr other ↦ rw other (f, map_set-IsFresh j k a m h fs)
  ]

  pub map_set-HasKeys : (k : Text) (a : A) (m : Map A) → HasKeys m → HasKeys (map_set k a m)
  unfolding map_set
  map_set-HasKeys k a [] _ = (tt, tt)
  map_set-HasKeys k a ((i, b) ∷ m) (f, h) = elim (Bool-cases (text_eq i k)) [
    | inl same ↦ rw same (f, h)
    | inr other ↦
        rw other (map_set-IsFresh i k a m (text_eq_comm k i ∙ other) f, map_set-HasKeys k a m h)
  ]

  -- What is set is what is read, at its own key and at every other.
  pub map_get-map_set :
      (j k : Text) (a : A) (m : Map A)
      → map_get j (map_set k a m) ≡ (if text_eq k j then some a else map_get j m)
  unfolding map_get map_set
  map_get-map_set j k a [] = refl
  map_get-map_set j k a ((i, b) ∷ m) = elim (Bool-cases (text_eq i k)) [
    | inl same ↦ rw same (elim (Bool-cases (text_eq k j)) [
      | inl hit ↦ rw (ap (λ x. text_eq x j) (text_eq_sound i k same), hit) refl
      | inr missed ↦ rw (ap (λ x. text_eq x j) (text_eq_sound i k same), missed) refl
    ])
    | inr other ↦ elim (Bool-cases (text_eq i j)) [
      | inl hit ↦
          rw (other, hit, ap (text_eq k) (sym (text_eq_sound i j hit)) ∙ text_eq_comm k i ∙ other)
            refl
      | inr missed ↦ rw (other, missed) (map_get-map_set j k a m)
    ]
  ]

  -- What is deleted is gone, and every other key is read as before.
  pub map_get-map_delete :
      (j k : Text) (m : Map A)
      → map_get j (map_delete k m) ≡ (if text_eq k j then none else map_get j m)
  unfolding map_get map_delete
  map_get-map_delete j k [] = ground arith
  map_get-map_delete j k ((i, b) ∷ m) = elim (Bool-cases (text_eq i k)) [
    | inl same ↦ rw same (
        map_get-map_delete j k m ∙ elim (Bool-cases (text_eq k j)) [
          | inl hit ↦ rw hit refl
          | inr missed ↦ rw (missed, ap (λ x. text_eq x j) (text_eq_sound i k same) ∙ missed) refl
        ])
    | inr other ↦ elim (Bool-cases (text_eq i j)) [
      | inl hit ↦
          rw (other, hit, ap (text_eq k) (sym (text_eq_sound i j hit)) ∙ text_eq_comm k i ∙ other)
            refl
      | inr missed ↦ rw (other, missed) (map_get-map_delete j k m)
    ]
  ]
