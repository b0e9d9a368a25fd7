-- ===== src/Text/Regions/Laws.antt =====
-- What removing and collecting regions does to a text that is put together from regions and from
-- text without the first code unit of the tags.
use recif.Base.{
  ℕ, ◌≡◌, refl, ap, ◌∙◌, none, some, [], ◌∷◌, ◌++◌, length, arith, append_assoc, length-append,
}
use recif.Text.{Text, strip_prefix}
use recif.Text.Regions.{
  until, match_at, match_tail, remove_from, remove_regions, regions_from, regions, Free,
  strip_prefix-append, strip_prefix-ne, remove_from-drop, regions_from-drop,
}

module _ (opening closing : Text) (c : ℕ) (s : Text)
    (miss : strip_prefix opening (c ∷ s) ≡ none) where
  pub remove_regions-skip :
      remove_regions opening closing (c ∷ s) ≡ c ∷ remove_regions opening closing s
  unfolding remove_regions remove_from match_at
  remove_regions-skip = ground arith

  pub regions-skip : regions opening closing (c ∷ s) ≡ regions opening closing s
  unfolding regions regions_from match_at
  regions-skip = ground arith

module _ (opening closing : Text) (c : ℕ) (s inner : Text) where
  remove_regions-hit :
      match_at opening closing (c ∷ s) ≡ some inner
      → remove_regions opening closing (c ∷ s)
        ≡ remove_from opening closing (match_tail opening closing inner) s
  unfolding remove_regions remove_from
  remove_regions-hit hit = ground arith

  regions-hit :
      match_at opening closing (c ∷ s) ≡ some inner
      → regions opening closing (c ∷ s)
        ≡ inner ∷ regions_from opening closing (match_tail opening closing inner) s
  unfolding regions regions_from
  regions-hit hit = ground arith

until-skip :
    (closing : Text) (c : ℕ) (s inner : Text)
    → strip_prefix closing (c ∷ s) ≡ none
    → until closing s ≡ some inner
    → until closing (c ∷ s) ≡ some (c ∷ inner)
unfolding until
until-skip closing c s inner miss rest = ground arith

module _ (h : ℕ) (o k : Text) where
  until-Free :
      (inner s : Text) → Free h inner → until (h ∷ k) (inner ++ ((h ∷ k) ++ s)) ≡ some inner
  unfolding until
  until-Free [] s free = rw (strip_prefix-append (h ∷ k) s, until)
  until-Free (d ∷ inner) s (n, free) =
      until-skip (h ∷ k) d (inner ++ ((h ∷ k) ++ s)) inner
        (strip_prefix-ne h k d (inner ++ ((h ∷ k) ++ s)) n) (until-Free inner s free)

  pub match_at-region :
      (inner s : Text)
      → Free h inner
      → match_at (h ∷ o) (h ∷ k) ((h ∷ o) ++ (inner ++ ((h ∷ k) ++ s))) ≡ some inner
  unfolding match_at
  match_at-region inner s free =
      rw (strip_prefix-append (h ∷ o) (inner ++ ((h ∷ k) ++ s)), match_at, until-Free inner s free)

  region_tail : (inner s : Text) → o ++ (inner ++ ((h ∷ k) ++ s)) ≡ (o ++ (inner ++ (h ∷ k))) ++ s
  region_tail inner s = simp append_assoc

  length-region :
      (inner : Text) → length (o ++ (inner ++ (h ∷ k))) ≡ match_tail (h ∷ o) (h ∷ k) inner
  length-region inner =
      omega (arith, length-append o (inner ++ (h ∷ k)), length-append inner (h ∷ k))

  -- Text without the first code unit of the tag is kept and captures nothing.
  pub remove_regions-Free :
      (p s : Text)
      → Free h p
      → remove_regions (h ∷ o) (h ∷ k) (p ++ s) ≡ p ++ remove_regions (h ∷ o) (h ∷ k) s
  remove_regions-Free [] s free = refl
  remove_regions-Free (c ∷ p) s (n, free) =
      remove_regions-skip (h ∷ o) (h ∷ k) c (p ++ s) (strip_prefix-ne h o c (p ++ s) n)
      ∙ ap (c ∷◌) (remove_regions-Free p s free)

  pub regions-Free :
      (p s : Text) → Free h p → regions (h ∷ o) (h ∷ k) (p ++ s) ≡ regions (h ∷ o) (h ∷ k) s
  regions-Free [] s free = refl
  regions-Free (c ∷ p) s (n, free) =
      regions-skip (h ∷ o) (h ∷ k) c (p ++ s) (strip_prefix-ne h o c (p ++ s) n)
      ∙ regions-Free p s free

  -- A region is dropped whole, and captured once.
  pub remove_regions-region :
      (inner s : Text)
      → Free h inner
      → remove_regions (h ∷ o) (h ∷ k) ((h ∷ o) ++ (inner ++ ((h ∷ k) ++ s)))
        ≡ remove_regions (h ∷ o) (h ∷ k) s
  unfolding remove_regions
  remove_regions-region inner s free =
      remove_regions-hit (h ∷ o) (h ∷ k) h (o ++ (inner ++ ((h ∷ k) ++ s))) inner
        (match_at-region inner s free)
      ∙ rw (region_tail inner s) (
          remove_from-drop (h ∷ o) (h ∷ k) (match_tail (h ∷ o) (h ∷ k) inner)
            (o ++ (inner ++ (h ∷ k))) s (length-region inner))

  pub regions-region :
      (inner s : Text)
      → Free h inner
      → regions (h ∷ o) (h ∷ k) ((h ∷ o) ++ (inner ++ ((h ∷ k) ++ s)))
        ≡ inner ∷ regions (h ∷ o) (h ∷ k) s
  unfolding regions
  regions-region inner s free =
      regions-hit (h ∷ o) (h ∷ k) h (o ++ (inner ++ ((h ∷ k) ++ s))) inner
        (match_at-region inner s free)
      ∙ rw (region_tail inner s) (
          ap (inner ∷◌) (
            regions_from-drop (h ∷ o) (h ∷ k) (match_tail (h ∷ o) (h ∷ k) inner)
              (o ++ (inner ++ (h ∷ k))) s (length-region inner)))

  -- A region of another tag stays as it stands, and captures nothing.
  module _ (o' k' : Text) (free_o : Free h o') (free_k : Free h k') where
    pub remove_regions-other :
        (inner s : Text)
        → Free h inner
        → ((t : Text) → strip_prefix (h ∷ o) ((h ∷ o') ++ t) ≡ none)
        → ((t : Text) → strip_prefix (h ∷ o) ((h ∷ k') ++ t) ≡ none)
        → remove_regions (h ∷ o) (h ∷ k) ((h ∷ o') ++ (inner ++ ((h ∷ k') ++ s)))
          ≡ (h ∷ o') ++ (inner ++ ((h ∷ k') ++ remove_regions (h ∷ o) (h ∷ k) s))
    remove_regions-other inner s free miss_o miss_k =
        remove_regions-skip (h ∷ o) (h ∷ k) h _ (miss_o (inner ++ ((h ∷ k') ++ s)))
        ∙ ap (h ∷◌) (
            remove_regions-Free o' _ free_o
            ∙ ap (o' ++◌) (
                remove_regions-Free inner _ free
                ∙ ap (inner ++◌) (
                    remove_regions-skip (h ∷ o) (h ∷ k) h _ (miss_k s)
                    ∙ ap (h ∷◌) (remove_regions-Free k' s free_k))))

    pub regions-other :
        (inner s : Text)
        → Free h inner
        → ((t : Text) → strip_prefix (h ∷ o) ((h ∷ o') ++ t) ≡ none)
        → ((t : Text) → strip_prefix (h ∷ o) ((h ∷ k') ++ t) ≡ none)
        → regions (h ∷ o) (h ∷ k) ((h ∷ o') ++ (inner ++ ((h ∷ k') ++ s)))
          ≡ regions (h ∷ o) (h ∷ k) s
    regions-other inner s free miss_o miss_k =
        regions-skip (h ∷ o) (h ∷ k) h _ (miss_o (inner ++ ((h ∷ k') ++ s)))
        ∙ regions-Free o' _ free_o
        ∙ regions-Free inner _ free
        ∙ regions-skip (h ∷ o) (h ∷ k) h _ (miss_k s)
        ∙ regions-Free k' s free_k
