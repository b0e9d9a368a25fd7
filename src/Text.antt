-- ===== src/Text.antt =====
-- JavaScript strings as lists of UTF-16 code units, and the methods of String that the dashboard
-- calls: equality, startsWith, includes, lastIndexOf, slice, trim and join.
pub mod Regions
pub mod Trim
pub mod Search
pub mod Decimal
pub mod Equality
pub mod Encode
use Prim.Native.Char.{code}
use Prim.Native.String.{String}
use recif.Base.{
  ℕ, ◌≡◌, refl, Bool, true, false, ◌&&◌, ◌||◌, Option, none, some, List, [], ◌∷◌, ◌++◌, ◌==◌, leb,
  if◌then◌else◌,
}

abbrev pub Text : Type 0
Text = List ℕ

-- A literal of the source: its code units, which are its code points as all lie in the BMP.
abbrev pub codes : String → Text
codes String.[] = []
codes (String.◌∷◌ c s) = code c ∷ codes s

-- `s === t`
unfoldable pub text_eq : Text → Text → Bool
text_eq [] [] = true
text_eq [] (_ ∷ _) = false
text_eq (_ ∷ _) [] = false
text_eq (c ∷ s) (d ∷ t) = c == d && text_eq s t

-- The rest of `s` behind the prefix `p`, if it begins so.
unfoldable pub strip_prefix : Text → Text → Option Text
strip_prefix [] s = some s
strip_prefix (_ ∷ _) [] = none
strip_prefix (c ∷ p) (d ∷ s) = if c == d then strip_prefix p s else none

-- `s.startsWith(p)`
unfoldable pub starts_with : Text → Text → Bool
starts_with [] s = true
starts_with (_ ∷ _) [] = false
starts_with (c ∷ p) (d ∷ s) = c == d && starts_with p s

-- `s.includes(p)`
unfoldable pub includes : Text → Text → Bool
includes p [] = starts_with p []
includes p (c ∷ s) = starts_with p (c ∷ s) || includes p s

-- What stands before the last occurrence of `p` and what begins with it: `s.slice(0, i)` and
-- `s.slice(i)` at `i = s.lastIndexOf(p)`; `none` is the index -1.
unfoldable pub split_last : Text → Text → Option (Text × Text)
split_last p [] = if starts_with p [] then some ([], []) else none
split_last p (c ∷ s) = elim (split_last p s) [
  | some (before, from) ↦ some (c ∷ before, from)
  | none ↦ if starts_with p (c ∷ s) then some ([], c ∷ s) else none
]

-- The code units that `trim` removes: WhiteSpace and LineTerminator of ECMAScript.
unfoldable pub is_space : ℕ → Bool
is_space c =
    leb 9 c && leb c 13
    || c == 32
    || c == 0xa0
    || c == 0x1680
    || leb 0x2000 c && leb c 0x200a
    || c == 0x2028
    || c == 0x2029
    || c == 0x202f
    || c == 0x205f
    || c == 0x3000
    || c == 0xfeff

unfoldable pub trim_start : Text → Text
trim_start [] = []
trim_start (c ∷ s) = if is_space c then trim_start s else c ∷ s

-- A code unit in front of a text whose trailing white space is gone.
unfoldable pub cons_end : ℕ → Text → Text
cons_end c [] = if is_space c then [] else c ∷ []
cons_end c (d ∷ s) = c ∷ d ∷ s

-- A text without its trailing white space, built from the right.
unfoldable pub trim_end : Text → Text
trim_end [] = []
trim_end (c ∷ s) = cons_end c (trim_end s)

-- `s.trim()`
unfoldable pub trim : Text → Text
trim s = trim_end (trim_start s)

-- `parts.join(sep)`
unfoldable pub join : Text → List Text → Text
join sep [] = []
join sep (s ∷ []) = s
join sep (s ∷ t ∷ parts) = s ++ sep ++ join sep (t ∷ parts)

trim_test : trim (codes "  a b\n") ≡ codes "a b"
unfolding trim trim_start trim_end cons_end is_space
trim_test = refl

split_last_test : split_last (codes "ab") (codes "abcabd") ≡ some (codes "abc", codes "abd")
unfolding split_last starts_with
split_last_test = refl
