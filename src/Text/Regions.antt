-- ===== src/Text/Regions.antt =====
-- The two uses of a regular expression /OPEN([\s\S]*?)CLOSE/g: `exec` in a loop, which collects the
-- captured texts, and `replace` with "", which drops the matches. A match is looked for at each
-- index in turn; behind a match of `n` code units the search goes on `n` further, which `skip`
-- counts down.
pub mod Laws
pub mod Unclosed
use recif.Base.{
  ℕ, zero, suc, ◌+◌, ◌≡◌, refl, ap, ◌∙◌, ◌≢◌, Option, none, some, List, [], ◌∷◌, ◌++◌, length, drop,
  All, arith, ◌==◌, ==_iff,
}
use mathlib.Core.Option
use recif.Text.{Text, codes, strip_prefix}

-- The shortest text before an occurrence of `closing`.
unfoldable pub until : Text → Text → Option Text
until closing [] = Option.map (λ _. []) (strip_prefix closing [])
until closing (c ∷ s) = elim (strip_prefix closing (c ∷ s)) [
  | some _ ↦ some []
  | none ↦ Option.map (c ∷◌) (until closing s)
]

-- What a match at the beginning of `s` captures.
unfoldable pub match_at : Text → Text → Text → Option Text
match_at opening closing s = elim (strip_prefix opening s) [
  | some rest ↦ until closing rest
  | none ↦ none
]

-- The length of a match behind its first code unit.
abbrev pub match_tail : Text → Text → Text → ℕ
match_tail [] closing inner = length inner + length closing
match_tail (_ ∷ opening) closing inner = length opening + length inner + length closing

unfoldable pub remove_from : Text → Text → ℕ → Text → Text
remove_from opening closing skip [] = []
remove_from opening closing (suc skip) (c ∷ s) = remove_from opening closing skip s
remove_from opening closing zero (c ∷ s) = elim (match_at opening closing (c ∷ s)) [
  | some inner ↦ remove_from opening closing (match_tail opening closing inner) s
  | none ↦ c ∷ remove_from opening closing zero s
]

-- `s.replace(/OPEN[\s\S]*?CLOSE/g, "")`
unfoldable pub remove_regions : Text → Text → Text → Text
remove_regions opening closing s = remove_from opening closing 0 s

unfoldable pub regions_from : Text → Text → ℕ → Text → List Text
regions_from opening closing skip [] = []
regions_from opening closing (suc skip) (c ∷ s) = regions_from opening closing skip s
regions_from opening closing zero (c ∷ s) = elim (match_at opening closing (c ∷ s)) [
  | some inner ↦ inner ∷ regions_from opening closing (match_tail opening closing inner) s
  | none ↦ regions_from opening closing zero s
]

-- The captures of `while ((match = /OPEN([\s\S]*?)CLOSE/g.exec(s)) !== null)`.
unfoldable pub regions : Text → Text → Text → List Text
regions opening closing s = regions_from opening closing 0 s

abbrev pub Free : ℕ → Text → Type 0
Free h = All (λ c. c ≢ h)

pub remove_from-drop :
    (opening closing : Text) (k : ℕ) (p s : Text)
    → length p ≡ k
    → remove_from opening closing k (p ++ s) ≡ remove_from opening closing 0 s
unfolding remove_from
remove_from-drop opening closing zero [] s h = refl
remove_from-drop opening closing (suc k) [] s h = absurd (omega arith)
remove_from-drop opening closing zero (c ∷ p) s h = absurd (omega arith)
remove_from-drop opening closing (suc k) (c ∷ p) s h =
    remove_from-drop opening closing k p s (omega arith)

pub regions_from-drop :
    (opening closing : Text) (k : ℕ) (p s : Text)
    → length p ≡ k
    → regions_from opening closing k (p ++ s) ≡ regions_from opening closing 0 s
unfolding regions_from
regions_from-drop opening closing zero [] s h = refl
regions_from-drop opening closing (suc k) [] s h = absurd (omega arith)
regions_from-drop opening closing zero (c ∷ p) s h = absurd (omega arith)
regions_from-drop opening closing (suc k) (c ∷ p) s h =
    regions_from-drop opening closing k p s (omega arith)

pub strip_prefix-append : (p s : Text) → strip_prefix p (p ++ s) ≡ some s
unfolding strip_prefix
strip_prefix-append [] s = refl
strip_prefix-append (c ∷ p) s = rw ((==_iff c c).1 refl) (strip_prefix-append p s)

pub strip_prefix-ne :
    (h : ℕ) (p : Text) (c : ℕ) (s : Text) → c ≢ h → strip_prefix (h ∷ p) (c ∷ s) ≡ none
unfolding strip_prefix
strip_prefix-ne h p c s n = ground arith
