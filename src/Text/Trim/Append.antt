-- ===== src/Text/Trim/Append.antt =====
-- Trimming a text whose middle holds a unit that is no white space.
use recif.Base.{ℕ, ◌≡◌, refl, ap, ◌∙◌, inl, inr, false, [], ◌∷◌, ◌++◌, arith}
use recif.Text.{Text, is_space, trim_start, trim_end, cons_end}
use recif.Text.Regions.{Free}
use recif.Text.Trim.{NoSpace, trim_end-cases}

module _ (c : ℕ) (r : Text) (ns : is_space c ≡ false) where
  pub trim_end-kept : trim_end (c ∷ r) ≡ c ∷ trim_end r
  trim_end-kept = elim (trim_end-cases c r) [ inl kept ↦ kept | inr (_, _, space) ↦ cc ]

  pub trim_start-append : (s : Text) → trim_start (s ++ c ∷ r) ≡ trim_start s ++ c ∷ r
  unfolding trim_start
  trim_start-append [] = rw ns
  trim_start-append (d ∷ s) = ground (arith, trim_start-append s)

  pub trim_end-append : (s : Text) → trim_end (s ++ c ∷ r) ≡ s ++ c ∷ trim_end r
  trim_end-append [] = trim_end-kept
  trim_end-append (d ∷ s) = cons_kept d s (trim_end-append s)
    where
      cons_kept :
          (d : ℕ) (s : Text)
          → trim_end (s ++ c ∷ r) ≡ s ++ c ∷ trim_end r
          → trim_end (d ∷ (s ++ c ∷ r)) ≡ d ∷ (s ++ c ∷ trim_end r)
      cons_kept d [] e = unfold trim_end cons_end in rw (trim_end-kept)
      cons_kept d (e ∷ s) h = unfold trim_end cons_end in rw h

pub trim_end-NoSpace : (q p : Text) → NoSpace q → trim_end (q ++ p) ≡ q ++ trim_end p
trim_end-NoSpace [] p h = refl
trim_end-NoSpace (c ∷ q) p (n, h) = trim_end-kept c (q ++ p) n ∙ ap (c ∷◌) (trim_end-NoSpace q p h)

pub trim_end-Free : (h : ℕ) (s : Text) → Free h s → Free h (trim_end s)
unfolding trim_end
trim_end-Free h [] free = tt
trim_end-Free h (c ∷ s) (n, free) = elim (trim_end-cases c s) [
  | inl kept ↦ rw kept (n, trim_end-Free h s free)
  | inr (gone, _, _) ↦ rw gone tt
]
