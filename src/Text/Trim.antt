-- ===== src/Text/Trim.antt =====
-- Laws of trim.
pub mod Regions
pub mod Append
use recif.Base.{
  ℕ, ◌≡◌, refl, sym, ap, ◌∙◌, ◌⊎◌, inl, inr, Bool, true, false, Bool-cases, List, [], ◌∷◌, ◌++◌,
  All, arith,
}
use recif.Text.{Text, is_space, trim_start, trim_end, cons_end, trim}

abbrev pub NoSpace : Text → Type 0
NoSpace = All (λ c. is_space c ≡ false)

pub trim_end-cases :
    (c : ℕ) (s : Text)
    → (trim_end (c ∷ s) ≡ c ∷ trim_end s)
      ⊎ ((trim_end (c ∷ s) ≡ []) × (trim_end s ≡ []) × (is_space c ≡ true))
unfolding trim_end cons_end
trim_end-cases c s = by_rest (trim_end s) refl (Bool-cases (is_space c))
  where
    by_rest :
        (t : Text)
        → trim_end s ≡ t
        → (is_space c ≡ true) ⊎ (is_space c ≡ false)
        → (trim_end (c ∷ s) ≡ c ∷ trim_end s)
          ⊎ ((trim_end (c ∷ s) ≡ []) × (trim_end s ≡ []) × (is_space c ≡ true))
    by_rest [] e (inl space) = inr (ground arith, e, space)
    by_rest [] e (inr other) = inl (ground arith)
    by_rest (d ∷ t) e _ = inl (ground arith)

trim_start_idem : (s : Text) → trim_start (trim_start s) ≡ trim_start s
unfolding trim_start
trim_start_idem [] = refl
trim_start_idem (c ∷ s) = ground (arith, trim_start_idem s)

trim_end_idem : (s : Text) → trim_end (trim_end s) ≡ trim_end s
unfolding trim_end
trim_end_idem [] = refl
trim_end_idem (c ∷ s) = elim (trim_end-cases c s) [
  | inl kept ↦ rw kept (ap (cons_end c) (trim_end_idem s) ∙ kept)
  | inr (gone, _, _) ↦ rw gone refl
]

-- The two ends do not disturb each other.
pub trim_start-trim_end : (s : Text) → trim_start (trim_end s) ≡ trim_end (trim_start s)
unfolding trim_start
trim_start-trim_end [] = unfold trim_end in refl
trim_start-trim_end (c ∷ s) = ground (arith, trim_end-cases c s, trim_start-trim_end s)

-- Trimming twice is trimming once.
pub trim_idem : (s : Text) → trim (trim s) ≡ trim s
unfolding trim
trim_idem s =
    ap trim_end (trim_start-trim_end (trim_start s) ∙ ap trim_end (trim_start_idem s))
    ∙ trim_end_idem (trim_start s)

pub trim-trim_start : (s : Text) → trim (trim_start s) ≡ trim s
unfolding trim
trim-trim_start s = ap trim_end (trim_start_idem s)

pub trim-trim_end : (s : Text) → trim (trim_end s) ≡ trim s
unfolding trim
trim-trim_end s = ap trim_end (trim_start-trim_end s) ∙ trim_end_idem (trim_start s)
