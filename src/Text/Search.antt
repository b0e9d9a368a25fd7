-- ===== src/Text/Search.antt =====
-- Laws of includes and lastIndexOf.
use recif.Base.{ℕ, ◌≡◌, refl, true, false, none, some, [], ◌∷◌, ◌++◌, arith, inl, inr}
use recif.Text.{Text, starts_with, includes, split_last, trim, trim_start, trim_end}
use recif.Text.Regions.{Free}
use recif.Text.Trim.{trim_end-cases}

-- lastIndexOf is -1 where includes is false.
pub split_last-none : (p s : Text) → includes p s ≡ false → split_last p s ≡ none
unfolding split_last includes
split_last-none p [] h = ground arith
split_last-none p (c ∷ s) h = ground (arith, split_last-none p s)

pub includes-cons :
    (p : Text) (c : ℕ) (s : Text)
    → starts_with p (c ∷ s) ≡ false
    → includes p (c ∷ s) ≡ includes p s
unfolding includes
includes-cons p c s h = rw h

module _ (h : ℕ) (o : Text) where
  pub includes-Free : (p s : Text) → Free h p → includes (h ∷ o) (p ++ s) ≡ includes (h ∷ o) s
  unfolding includes starts_with
  includes-Free [] s free = refl
  includes-Free (c ∷ p) s (n, free) = ground (arith, includes-Free p s free)

starts_with-trim_end : (p s : Text) → starts_with p (trim_end s) ≡ true → starts_with p s ≡ true
unfolding starts_with trim_end
starts_with-trim_end [] s h = refl
starts_with-trim_end (c ∷ p) [] h = h
starts_with-trim_end (c ∷ p) (d ∷ s) h =
    ground (arith, trim_end-cases d s, starts_with-trim_end p s)

includes-of-trim_end : (p s : Text) → includes p (trim_end s) ≡ true → includes p s ≡ true
unfolding includes
includes-of-trim_end p [] h = unfold trim_end in h
includes-of-trim_end p (d ∷ s) h = elim (trim_end-cases d s) [
  | inl kept ↦
      let found = rw kept at h in
      let head = rw kept at (starts_with-trim_end p (d ∷ s)) in
      ground (arith, found, head, includes-of-trim_end p s)
  | inr (gone, _, _) ↦
      let found = rw gone at h in
      let head = rw gone at (starts_with-trim_end p (d ∷ s)) in ground (arith, head found)
]

includes-of-trim_start : (p s : Text) → includes p (trim_start s) ≡ true → includes p s ≡ true
unfolding includes trim_start
includes-of-trim_start p [] h = h
includes-of-trim_start p (d ∷ s) h = ground (arith, includes-of-trim_start p s)

-- What does not occur in a text does not occur in it trimmed.
pub includes-trim : (p s : Text) → includes p s ≡ false → includes p (trim s) ≡ false
unfolding trim
includes-trim p s h =
    ground (arith, includes-of-trim_end p (trim_start s), includes-of-trim_start p s)

-- The last occurrence lies in what stands behind, if one does.
pub split_last-append :
    (p a s : Text) {before from : Text}
    → split_last p s ≡ some (before, from)
    → split_last p (a ++ s) ≡ some (a ++ before, from)
unfolding split_last
split_last-append p [] s h = h
split_last-append p (c ∷ a) s h = rw (split_last-append p a s h)

pub split_last-head :
    (p : Text) (c : ℕ) (s : Text)
    → starts_with p (c ∷ s) ≡ true
    → includes p s ≡ false
    → split_last p (c ∷ s) ≡ some ([], c ∷ s)
unfolding split_last
split_last-head p c s h k = rw (split_last-none p s k, h)
