-- ===== src/Text/Trim/Regions.antt =====
-- Trimming before regions are removed makes no difference to trimming after it, as no tag begins or
-- ends in white space.
use mathlib.Core.Option
use recif.Base.{
  ℕ, zero, suc, ◌≡◌, refl, sym, ap, ◌∙◌, ◌≡⟨◌⟩◌, ◌∎, inl, inr, true, false, Bool-cases, none, some,
  Option-cases, [], ◌∷◌, arith, ◌==◌, ==_iff, if◌then◌else◌,
}
use recif.Text.{Text, is_space, trim_start, trim_end, cons_end, trim, strip_prefix}
use recif.Text.Regions.{until, match_at, match_tail, remove_from, remove_regions, strip_prefix-ne}
use recif.Text.Trim.{NoSpace, trim_end-cases, trim_start-trim_end}

strip_prefix-cons_end :
    (c : ℕ) (p : Text) (d : ℕ) (t : Text)
    → is_space c ≡ false
    → strip_prefix (c ∷ p) (cons_end d t) ≡ (if c == d then strip_prefix p t else none)
unfolding strip_prefix cons_end
strip_prefix-cons_end c p d [] ns = ground (arith, ==_iff c d)
strip_prefix-cons_end c p d (e ∷ t) ns = refl

strip_prefix-trim_end :
    (p s : Text) → NoSpace p → strip_prefix p (trim_end s) ≡ Option.map trim_end (strip_prefix p s)
unfolding strip_prefix trim_end
strip_prefix-trim_end [] s ns = refl
strip_prefix-trim_end (c ∷ p) [] ns = refl
strip_prefix-trim_end (c ∷ p) (d ∷ s) (n, ns) =
    strip_prefix-cons_end c p d (trim_end s) n ∙ ground (arith, strip_prefix-trim_end p s ns)

strip_prefix-nil : (c : ℕ) (p : Text) → strip_prefix (c ∷ p) [] ≡ none
unfolding strip_prefix
strip_prefix-nil c p = refl

until-trim_end :
    (c : ℕ) (k s : Text) → NoSpace (c ∷ k) → until (c ∷ k) (trim_end s) ≡ until (c ∷ k) s
unfolding until
until-trim_end c k [] ns = unfold trim_end in refl
until-trim_end c k (d ∷ s) ns = elim (trim_end-cases d s) [
  | inl kept ↦
      let heads = rw kept at (strip_prefix-trim_end (c ∷ k) (d ∷ s) ns) in
      rw kept (ground (arith, heads, until-trim_end c k s ns))
  | inr (gone, rest, space) ↦
      let heads = rw gone at (strip_prefix-trim_end (c ∷ k) (d ∷ s) ns) in
      let tails = rw rest at (until-trim_end c k s ns) in
      rw gone (ground (arith, strip_prefix-nil c k, heads, tails))
]

match_at-trim_end :
    (o : Text) (c : ℕ) (k s : Text)
    → NoSpace o
    → NoSpace (c ∷ k)
    → match_at o (c ∷ k) (trim_end s) ≡ match_at o (c ∷ k) s
unfolding match_at
match_at-trim_end o c k s ho hk = elim (Option-cases (strip_prefix o s)) [
  | inl miss ↦ ground (arith, strip_prefix-trim_end o s ho)
  | inr (rest, hit) ↦ ground (arith, strip_prefix-trim_end o s ho, until-trim_end c k rest hk)
]

match_at-nil : (a : ℕ) (o k : Text) → match_at (a ∷ o) k [] ≡ none
unfolding match_at strip_prefix
match_at-nil a o k = refl

module _ (opening closing : Text) (d : ℕ) (s : Text) where
  remove_from-suc :
      (skip : ℕ)
      → remove_from opening closing (suc skip) (d ∷ s) ≡ remove_from opening closing skip s
  unfolding remove_from
  remove_from-suc skip = refl

  remove_from-miss :
      match_at opening closing (d ∷ s) ≡ none
      → remove_from opening closing 0 (d ∷ s) ≡ d ∷ remove_from opening closing 0 s
  unfolding remove_from
  remove_from-miss miss = ground arith

  remove_from-hit :
      (inner : Text)
      → match_at opening closing (d ∷ s) ≡ some inner
      → remove_from opening closing 0 (d ∷ s)
        ≡ remove_from opening closing (match_tail opening closing inner) s
  unfolding remove_from
  remove_from-hit inner hit = ground arith

remove_from-nil : (opening closing : Text) (skip : ℕ) → remove_from opening closing skip [] ≡ []
unfolding remove_from
remove_from-nil opening closing skip = refl

-- What a space or a kept unit in front of two texts with one trimmed end does.
cons-trim_end : (d : ℕ) (s t : Text) → trim_end s ≡ trim_end t → trim_end (d ∷ s) ≡ trim_end (d ∷ t)
unfolding trim_end
cons-trim_end d s t e = ap (cons_end d) e

space-trim_end : (d : ℕ) (s : Text) → is_space d ≡ true → trim_end s ≡ [] → trim_end (d ∷ s) ≡ []
unfolding trim_end cons_end
space-trim_end d s space e = rw e (ground arith)

trim_end-nil : trim_end [] ≡ []
unfolding trim_end
trim_end-nil = refl

module _ (a : ℕ) (o : Text) (c : ℕ) (k : Text) (ho : NoSpace (a ∷ o)) (hk : NoSpace (c ∷ k)) where
  abbrev cut : ℕ → Text → Text
  cut = remove_from (a ∷ o) (c ∷ k)

  cut-nil : (skip : ℕ) → trim_end (cut skip []) ≡ []
  cut-nil skip = ap trim_end (remove_from-nil (a ∷ o) (c ∷ k) skip) ∙ trim_end-nil

  remove_from-trim_end :
      (skip : ℕ) (s : Text) → trim_end (cut skip (trim_end s)) ≡ trim_end (cut skip s)
  remove_from-trim_end skip [] = rw trim_end-nil
  remove_from-trim_end (suc skip) (d ∷ s) = elim (trim_end-cases d s) [
    | inl kept ↦ rw (kept, remove_from-suc, remove_from-suc) (remove_from-trim_end skip s)
    | inr (gone, rest, space) ↦
        let tails = rw rest at (remove_from-trim_end skip s) in
        rw (gone, remove_from-suc) (cut-nil (suc skip) ∙ sym (cut-nil skip) ∙ tails)
  ]
  remove_from-trim_end zero (d ∷ s) = elim (Option-cases (match_at (a ∷ o) (c ∷ k) (d ∷ s))) [
    | inl miss ↦ elim (trim_end-cases d s) [
      | inl kept ↦
          let same = rw kept at (match_at-trim_end (a ∷ o) c k (d ∷ s) ho hk) in
          rw
            (
              kept,
              remove_from-miss (a ∷ o) (c ∷ k) d (trim_end s) (same ∙ miss),
              remove_from-miss (a ∷ o) (c ∷ k) d s miss,
            )
            (cons-trim_end d _ _ (remove_from-trim_end zero s))
      | inr (gone, rest, space) ↦
          let tails = rw rest at (remove_from-trim_end zero s) in
          rw (gone, remove_from-miss (a ∷ o) (c ∷ k) d s miss)
            (cut-nil 0 ∙ sym (space-trim_end d _ space (sym tails ∙ cut-nil 0)))
    ]
    | inr (inner, hit) ↦ elim (trim_end-cases d s) [
      | inl kept ↦
          let same = rw kept at (match_at-trim_end (a ∷ o) c k (d ∷ s) ho hk) in
          rw
            (
              kept,
              remove_from-hit (a ∷ o) (c ∷ k) d (trim_end s) inner (same ∙ hit),
              remove_from-hit (a ∷ o) (c ∷ k) d s inner hit,
            )
            (remove_from-trim_end (match_tail (a ∷ o) (c ∷ k) inner) s)
      | inr (gone, rest, space) ↦
          let same = rw gone at (match_at-trim_end (a ∷ o) c k (d ∷ s) ho hk) in
          absurd (cc (match_at-nil a o (c ∷ k), same, hit))
    ]
  ]

  match_at-space : (d : ℕ) (s : Text) → is_space d ≡ true → match_at (a ∷ o) (c ∷ k) (d ∷ s) ≡ none
  unfolding match_at
  match_at-space d s space = ground (arith, strip_prefix-ne a o d s (λ e. cc (ap is_space e, ho.0)))

  remove_from-trim_start : (s : Text) → trim_start (cut 0 (trim_start s)) ≡ trim_start (cut 0 s)
  unfolding trim_start
  remove_from-trim_start [] = refl
  remove_from-trim_start (d ∷ s) = elim (Bool-cases (is_space d)) [
    | inl space ↦
        rw (remove_from-miss (a ∷ o) (c ∷ k) d s (match_at-space d s space), space)
          (remove_from-trim_start s)
    | inr other ↦ rw other
  ]

  -- A text may be trimmed before the regions are removed.
  pub remove_regions-trim :
      (s : Text)
      → trim (remove_regions (a ∷ o) (c ∷ k) (trim s)) ≡ trim (remove_regions (a ∷ o) (c ∷ k) s)
  unfolding trim remove_regions
  remove_regions-trim s =
      trim_end (trim_start (cut 0 (trim_end (trim_start s))))
      ≡⟨ sym (trim_start-trim_end _) ⟩ trim_start (trim_end (cut 0 (trim_end (trim_start s))))
      ≡⟨ ap trim_start (remove_from-trim_end 0 (trim_start s)) ⟩
        trim_start (trim_end (cut 0 (trim_start s)))
      ≡⟨ trim_start-trim_end _ ⟩ trim_end (trim_start (cut 0 (trim_start s)))
      ≡⟨ ap trim_end (remove_from-trim_start s) ⟩ trim_end (trim_start (cut 0 s)) ∎
