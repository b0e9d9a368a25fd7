-- ===== src/Thinking/Thoughts.antt =====
-- The thoughts of a reply, and what is left around them.
use recif.Base.{
  ◌≡◌, refl, sym, ap, ap₂, ◌∙◌, false, none, some, List, [], ◌∷◌, ◌++◌, map, append-nil, drop,
  arith,
}
use recif.Text.{Text, starts_with, includes, split_last, trim, trim_start, trim_end, is_space}
use recif.Text.Regions.{Free, remove_regions, regions}
use recif.Text.Regions.Unclosed.{
  remove_regions-unclosed, regions-unclosed, regions-nil, remove_regions-nil,
}
use recif.Text.Search.{
  split_last-none, split_last-append, split_last-head, includes-trim, includes-Free,
}
use recif.Text.Trim.{NoSpace, trim-trim_start, trim-trim_end}
use recif.Text.Trim.Append.{trim_start-append, trim_end-append, trim_end-NoSpace, trim_end-Free}
use recif.Text.Trim.Regions.{remove_regions-trim}
use recif.Thinking.{think_open, think_close, take_unclosed, split_thinking}
use recif.Thinking.Pieces.{
  Tag, think, tool_use, tool_result, Piece, opening, closing, open_rest, close_rest, render,
  lt_sign, IsPlain, thoughts, without,
}
use recif.Thinking.Pieces.Laws.{
  remove-render, regions-render, includes-render, open_rest-Free, render-append,
}

opening-NoSpace : (tag : Tag) → NoSpace (opening tag)
unfolding is_space
opening-NoSpace think = ground arith
opening-NoSpace tool_use = ground arith
opening-NoSpace tool_result = ground arith

closing-NoSpace : (tag : Tag) → NoSpace (closing tag)
unfolding is_space
closing-NoSpace think = ground arith
closing-NoSpace tool_use = ground arith
closing-NoSpace tool_result = ground arith

-- Trimming before the regions of a tag are removed.
pub removed-trim :
    (tag : Tag) (s : Text)
    → trim (remove_regions (opening tag) (closing tag) (trim s))
      ≡ trim (remove_regions (opening tag) (closing tag) s)
removed-trim tag s =
    remove_regions-trim lt_sign (open_rest tag) lt_sign (close_rest tag) (opening-NoSpace tag)
      (closing-NoSpace tag) s

removed-nil : (tag : Tag) → remove_regions (opening tag) (closing tag) [] ≡ []
removed-nil tag = remove_regions-nil (opening tag) (closing tag)

-- The pieces without a tag's blocks, with nothing behind them.
pub removed-render :
    (tag : Tag) (ps : List Piece)
    → IsPlain ps
    → remove_regions (opening tag) (closing tag) (render ps []) ≡ render (without tag ps) []
removed-render tag ps plain =
    remove-render tag ps [] plain ∙ ap (render (without tag ps)) (removed-nil tag)

pub includes-nil : (tag : Tag) → includes (opening tag) [] ≡ false
unfolding includes starts_with
includes-nil tag = refl

no_tag :
    (tag : Tag) (ps : List Piece)
    → IsPlain ps
    → split_last (opening tag) (trim (render (without tag ps) [])) ≡ none
no_tag tag ps plain =
    split_last-none (opening tag) _
      (includes-trim (opening tag) _ (includes-render tag ps [] plain ∙ includes-nil tag))

module _ (ths : List Text) (content : Text) where
  take_unclosed-none :
      split_last think_open content ≡ none → take_unclosed ths content ≡ (ths, content)
  unfolding take_unclosed
  take_unclosed-none h = ground arith

  take_unclosed-some :
      (before from : Text)
      → split_last think_open content ≡ some (before, from)
      → includes think_close from ≡ false
      → take_unclosed ths content ≡ (ths ++ trim (drop 7 from) ∷ [], trim before)
  unfolding take_unclosed
  take_unclosed-some before from h k = ground arith

-- A closed reply: the thoughts, and the rest without them.
pub split_thinking-render :
    (ps : List Piece)
    → IsPlain ps
    → split_thinking (render ps []) ≡ (map trim (thoughts ps), trim (render (without think ps) []))
unfolding split_thinking
split_thinking-render ps plain =
    ap₂ (λ ths content. take_unclosed (map trim ths) (trim content))
      (regions-render ps [] plain
        ∙ ap (thoughts ps ++◌) (regions-nil (opening think) (closing think))
        ∙ append-nil (thoughts ps))
      (removed-render think ps plain)
    ∙ take_unclosed-none (map trim (thoughts ps)) _ (no_tag think ps plain)

-- Where the open thought begins, nothing is trimmed but the two ends.
trim-open_thought :
    (a p : Text) → trim (a ++ (think_open ++ p)) ≡ trim_start a ++ (think_open ++ trim_end p)
unfolding trim
trim-open_thought a p =
    ap trim_end (trim_start-append lt_sign (open_rest think ++ p) (opening-NoSpace think).0 a)
    ∙ trim_end-append lt_sign (open_rest think ++ p) (opening-NoSpace think).0 (trim_start a)
    ∙ ap (λ r. trim_start a ++ lt_sign ∷ r)
        (trim_end-NoSpace (open_rest think) p (opening-NoSpace think).1)

-- An open thought has no tag behind its own.
module _ (p : Text) (free : Free lt_sign p) where
  no_tag_inside : includes think_open (open_rest think ++ p) ≡ false
  no_tag_inside =
      includes-Free lt_sign (open_rest think) (open_rest think) p (open_rest-Free think)
      ∙ ap (includes think_open) (sym (append-nil p))
      ∙ includes-Free lt_sign (open_rest think) p [] free
      ∙ includes-nil think

  no_closing_tag : includes think_close (think_open ++ p) ≡ false
  unfolding includes starts_with
  no_closing_tag =
      includes-Free lt_sign (close_rest think) (open_rest think) p (open_rest-Free think)
      ∙ ap (includes think_close) (sym (append-nil p))
      ∙ includes-Free lt_sign (close_rest think) p [] free

  open_thought_last :
      (a : Text) → split_last think_open (a ++ (think_open ++ p)) ≡ some (a ++ [], think_open ++ p)
  unfolding starts_with
  open_thought_last a =
      split_last-append think_open a (think_open ++ p)
        (split_last-head think_open lt_sign (open_rest think ++ p) refl no_tag_inside)

-- A reply whose last thought is still open: that thought is the last one.
pub split_thinking-streaming :
    (ps : List Piece) (p : Text)
    → IsPlain ps
    → Free lt_sign p
    → split_thinking (render ps (think_open ++ p))
      ≡ (map trim (thoughts ps) ++ trim p ∷ [], trim (render (without think ps) []))
unfolding split_thinking
split_thinking-streaming ps p plain free =
    ap₂ (λ ths content. take_unclosed (map trim ths) (trim content)) captured left
    ∙ ap (take_unclosed (map trim (thoughts ps))) (trim-open_thought rest p)
    ∙ take_unclosed-some (map trim (thoughts ps)) _ (trim_start rest ++ [])
        (think_open ++ trim_end p)
        (open_thought_last (trim_end p) (trim_end-Free lt_sign p free) (trim_start rest))
        (no_closing_tag (trim_end p) (trim_end-Free lt_sign p free))
    ∙ ap₂ (λ t r. (map trim (thoughts ps) ++ t ∷ [], r)) (trim-trim_end p)
        (ap trim (append-nil (trim_start rest)) ∙ trim-trim_start rest)
  where
    rest : Text
    rest = render (without think ps) []

    captured : regions think_open think_close (render ps (think_open ++ p)) ≡ thoughts ps
    captured =
        regions-render ps (think_open ++ p) plain
        ∙ ap (thoughts ps ++◌) (
            regions-unclosed lt_sign (open_rest think) (close_rest think) p (open_rest-Free think)
              free)
        ∙ append-nil (thoughts ps)

    left :
        remove_regions think_open think_close (render ps (think_open ++ p))
        ≡ rest ++ (think_open ++ p)
    left =
        remove-render think ps (think_open ++ p) plain
        ∙ ap (render (without think ps)) (
            remove_regions-unclosed lt_sign (open_rest think) (close_rest think) p
              (open_rest-Free think) free)
        ∙ render-append (without think ps) (think_open ++ p)
