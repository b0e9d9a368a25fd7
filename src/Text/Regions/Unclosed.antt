-- ===== src/Text/Regions/Unclosed.antt =====
-- A tag that is opened and never closed: it makes no region.
use recif.Base.{ℕ, ◌≡◌, refl, sym, ap, ◌∙◌, none, [], ◌∷◌, ◌++◌, append-nil, arith}
use recif.Text.{Text, strip_prefix}
use recif.Text.Regions.{
  until, match_at, remove_from, remove_regions, regions_from, regions, Free, strip_prefix-append,
  strip_prefix-ne,
}
use recif.Text.Regions.Laws.{remove_regions-Free, regions-Free}

until-miss :
    (closing : Text) (c : ℕ) (s : Text)
    → strip_prefix closing (c ∷ s) ≡ none
    → until closing s ≡ none
    → until closing (c ∷ s) ≡ none
unfolding until
until-miss closing c s miss rest = ground arith

module _ (opening closing : Text) (c : ℕ) (s : Text)
    (miss : match_at opening closing (c ∷ s) ≡ none) where
  remove_regions-no_match :
      remove_regions opening closing (c ∷ s) ≡ c ∷ remove_regions opening closing s
  unfolding remove_regions remove_from
  remove_regions-no_match = ground arith

  regions-no_match : regions opening closing (c ∷ s) ≡ regions opening closing s
  unfolding regions regions_from
  regions-no_match = ground arith

pub remove_regions-nil : (opening closing : Text) → remove_regions opening closing [] ≡ []
unfolding remove_regions remove_from
remove_regions-nil opening closing = refl

pub regions-nil : (opening closing : Text) → regions opening closing [] ≡ []
unfolding regions regions_from
regions-nil opening closing = refl

module _ (h : ℕ) (o k : Text) where
  until-Free-none : (p : Text) → Free h p → until (h ∷ k) p ≡ none
  until-Free-none [] free = unfold until strip_prefix in refl
  until-Free-none (c ∷ p) (n, free) =
      until-miss (h ∷ k) c p (strip_prefix-ne h k c p n) (until-Free-none p free)

  match_at-unclosed : (p : Text) → Free h p → match_at (h ∷ o) (h ∷ k) ((h ∷ o) ++ p) ≡ none
  unfolding match_at
  match_at-unclosed p free = rw (strip_prefix-append (h ∷ o) p, match_at) (until-Free-none p free)

  pub remove_regions-Free_all : (p : Text) → Free h p → remove_regions (h ∷ o) (h ∷ k) p ≡ p
  remove_regions-Free_all p free =
      ap (remove_regions (h ∷ o) (h ∷ k)) (sym (append-nil p))
      ∙ remove_regions-Free h o k p [] free
      ∙ ap (p ++◌) (remove_regions-nil (h ∷ o) (h ∷ k))
      ∙ append-nil p

  pub remove_regions-unclosed :
      (p : Text)
      → Free h o
      → Free h p
      → remove_regions (h ∷ o) (h ∷ k) ((h ∷ o) ++ p) ≡ (h ∷ o) ++ p
  remove_regions-unclosed p free_o free =
      remove_regions-no_match (h ∷ o) (h ∷ k) h (o ++ p) (match_at-unclosed p free)
      ∙ ap (h ∷◌)
          (remove_regions-Free h o k o p free_o ∙ ap (o ++◌) (remove_regions-Free_all p free))

  pub regions-unclosed :
      (p : Text) → Free h o → Free h p → regions (h ∷ o) (h ∷ k) ((h ∷ o) ++ p) ≡ []
  regions-unclosed p free_o free =
      regions-no_match (h ∷ o) (h ∷ k) h (o ++ p) (match_at-unclosed p free)
      ∙ regions-Free h o k o p free_o
      ∙ ap (regions (h ∷ o) (h ∷ k)) (sym (append-nil p))
      ∙ regions-Free h o k p [] free
      ∙ regions-nil (h ∷ o) (h ∷ k)
