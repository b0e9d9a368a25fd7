-- ===== src/AgentPage/Lines.antt =====
-- Texts cut into lines and joined again.
use recif.Base.{
  ℕ, ◌==◌, ==_iff, ◌≡◌, refl, sym, ap, ◌∙◌, Bool, true, false, Bool-cases, inl, inr, List, [], ◌∷◌,
  ◌++◌, All, append_assoc, arith,
}
use recif.Text.{Text, codes, join, is_space}
use recif.Text.Regions.{Free}
use recif.Chat.Stream.{split_lines, add_unit, prepend}
use recif.Chat.Framing.{split_lines-line, split_lines-Free, add_unit-newline, add_unit-other}
use recif.AgentPage.{lines_of, dashed}

-- The lines of lines that are joined are these lines, if none has a line feed.
pub lines_of-join :
    (l : Text) (ls : List Text)
    → All (Free 10) (l ∷ ls)
    → lines_of (join (codes "\n") (l ∷ ls)) ≡ l ∷ ls
unfolding join
lines_of-join l [] (free, _) = ap (λ p. p.0 ++ p.1 ∷ []) (split_lines-Free l free)
lines_of-join l (m ∷ ls) (free, rest) =
    ap lines_of (append_assoc l (codes "\n") (join (codes "\n") (m ∷ ls)))
    ∙ ap (λ p. p.0 ++ p.1 ∷ []) (split_lines-line l (join (codes "\n") (m ∷ ls)) free)
    ∙ ap (l ∷◌) (lines_of-join m ls rest)

join-head :
    (c : ℕ) (l : Text) (ls : List Text)
    → join (codes "\n") ((c ∷ l) ∷ ls) ≡ c ∷ join (codes "\n") (l ∷ ls)
unfolding join
join-head c l [] = refl
join-head c l (m ∷ ls) = refl

-- The parts of a text, joined.
abbrev rejoin : List Text × Text → Text
rejoin p = join (codes "\n") (p.0 ++ p.1 ∷ [])

rejoin-add_unit :
    (c : ℕ) (lines : List Text) (last : Text)
    → rejoin (add_unit c (lines, last)) ≡ c ∷ rejoin (lines, last)
unfolding join prepend
rejoin-add_unit c [] last = elim (Bool-cases (c == 10)) [
  | inl newline ↦
      ap rejoin (add_unit-newline c [] last newline)
      ∙ ap (λ d. d ∷ last) (sym ((==_iff c 10).0 newline))
  | inr plain ↦ ap rejoin (add_unit-other c [] last plain)
]
rejoin-add_unit c (l ∷ lines) last = elim (Bool-cases (c == 10)) [
  | inl newline ↦
      ap rejoin (add_unit-newline c (l ∷ lines) last newline)
      ∙ ap (λ d. d ∷ rejoin (l ∷ lines, last)) (sym ((==_iff c 10).0 newline))
  | inr plain ↦
      ap rejoin (add_unit-other c (l ∷ lines) last plain) ∙ join-head c l (lines ++ last ∷ [])
]

-- Cut at the line feeds and joined again, a text is what it was.
pub join-lines_of : (s : Text) → join (codes "\n") (lines_of s) ≡ s
unfolding split_lines join
join-lines_of [] = refl
join-lines_of (c ∷ s) =
    rejoin-add_unit c (split_lines s).0 (split_lines s).1 ∙ ap (c ∷◌) (join-lines_of s)

pub dashed-Free : (inside : Bool) (t : Text) → Free 10 (dashed inside t)
unfolding dashed is_space
dashed-Free inside [] = tt
dashed-Free true (c ∷ t) = elim (Bool-cases (is_space c)) [
  | inl space ↦ rw space (dashed-Free true t)
  | inr plain ↦ rw plain (ground (arith, plain), dashed-Free false t)
]
dashed-Free false (c ∷ t) = elim (Bool-cases (is_space c)) [
  | inl space ↦ rw space (omega arith, dashed-Free true t)
  | inr plain ↦ rw plain (ground (arith, plain), dashed-Free false t)
]

add_unit-Free :
    (c : ℕ) (lines : List Text) (last : Text)
    → All (Free 10) (lines ++ last ∷ [])
    → All (Free 10) ((add_unit c (lines, last)).0 ++ (add_unit c (lines, last)).1 ∷ [])
unfolding prepend
add_unit-Free c [] last (free, rest) = elim (Bool-cases (c == 10)) [
  | inl newline ↦ rw (add_unit-newline c [] last newline) (tt, (free, tt))
  | inr plain ↦ rw (add_unit-other c [] last plain) ((ground (arith, plain), free), tt)
]
add_unit-Free c (l ∷ lines) last (free, rest) = elim (Bool-cases (c == 10)) [
  | inl newline ↦ rw (add_unit-newline c (l ∷ lines) last newline) (tt, (free, rest))
  | inr plain ↦ rw (add_unit-other c (l ∷ lines) last plain) ((ground (arith, plain), free), rest)
]

-- The lines of a text have no line feed.
pub lines_of-Free : (s : Text) → All (Free 10) (lines_of s)
unfolding split_lines
lines_of-Free [] = (tt, tt)
lines_of-Free (c ∷ s) = add_unit-Free c (split_lines s).0 (split_lines s).1 (lines_of-Free s)
