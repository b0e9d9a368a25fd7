-- ===== src/Thinking/Pieces/Laws.antt =====
-- What the regular expressions of parseThinking do to the raw text of a list of pieces.
use recif.Base.{
  ◌≡◌, refl, sym, All-append, ap, ◌∙◌, ◌≢◌, false, none, List, [], ◌∷◌, ◌++◌, arith, append_assoc,
}
use recif.Text.{Text, strip_prefix, starts_with, includes}
use recif.Text.Regions.{Free, remove_regions, regions}
use recif.Text.Regions.Laws.{
  remove_regions-Free, remove_regions-region, remove_regions-other, regions-Free, regions-region,
  regions-other,
}
use recif.Text.Search.{includes-Free, includes-cons}
use recif.Thinking.Pieces.{
  Tag, think, tool_use, tool_result, Piece, plain, block, opening, closing, open_rest, close_rest,
  render, lt_sign, IsPlain, plain_text, thoughts, without,
}

pub open_rest-Free : (tag : Tag) → Free lt_sign (open_rest tag)
open_rest-Free think = omega arith
open_rest-Free tool_use = omega arith
open_rest-Free tool_result = omega arith

pub close_rest-Free : (tag : Tag) → Free lt_sign (close_rest tag)
close_rest-Free think = omega arith
close_rest-Free tool_use = omega arith
close_rest-Free tool_result = omega arith

miss_open :
    (tag other : Tag)
    → tag ≢ other
    → (t : Text) → strip_prefix (opening tag) (opening other ++ t) ≡ none
unfolding strip_prefix
miss_open think think n t = absurd (n refl)
miss_open tool_use tool_use n t = absurd (n refl)
miss_open tool_result tool_result n t = absurd (n refl)
miss_open _ _ n t = refl

miss_close : (tag other : Tag) (t : Text) → strip_prefix (opening tag) (closing other ++ t) ≡ none
unfolding strip_prefix
miss_close think think t = refl
miss_close tool_use think t = refl
miss_close tool_result think t = refl
miss_close _ _ t = refl

-- Removing the regions of a tag from the raw text leaves the raw text of the other pieces.
pub remove-render :
    (tag : Tag) (ps : List Piece) (s : Text)
    → IsPlain ps
    → remove_regions (opening tag) (closing tag) (render ps s)
      ≡ render (without tag ps) (remove_regions (opening tag) (closing tag) s)
remove-render think [] s free = refl
remove-render _ [] s free = refl
remove-render tag (plain t ∷ ps) s (free, rest) =
    remove_regions-Free lt_sign (open_rest tag) (close_rest tag) t (render ps s) free
    ∙ ap (t ++◌) (remove-render tag ps s rest)
remove-render think (block think t ∷ ps) s (free, rest) =
    remove_regions-region lt_sign (open_rest think) (close_rest think) t (render ps s) free
    ∙ remove-render think ps s rest
remove-render tool_use (block tool_use t ∷ ps) s (free, rest) =
    remove_regions-region lt_sign (open_rest tool_use) (close_rest tool_use) t (render ps s) free
    ∙ remove-render tool_use ps s rest
remove-render tool_result (block tool_result t ∷ ps) s (free, rest) =
    remove_regions-region lt_sign (open_rest tool_result) (close_rest tool_result) t (render ps s)
      free
    ∙ remove-render tool_result ps s rest
remove-render tag (block other t ∷ ps) s (free, rest) =
    remove_regions-other lt_sign (open_rest tag) (close_rest tag) (open_rest other)
      (close_rest other) (open_rest-Free other) (close_rest-Free other) t (render ps s) free
      (miss_open tag other (λ e. cc)) (miss_close tag other)
    ∙ ap (λ r. opening other ++ (t ++ (closing other ++ r))) (remove-render tag ps s rest)

-- The think regions capture the thoughts, in order.
pub regions-render :
    (ps : List Piece) (s : Text)
    → IsPlain ps
    → regions (opening think) (closing think) (render ps s)
      ≡ thoughts ps ++ regions (opening think) (closing think) s
regions-render [] s free = refl
regions-render (plain t ∷ ps) s (free, rest) =
    regions-Free lt_sign (open_rest think) (close_rest think) t (render ps s) free
    ∙ regions-render ps s rest
regions-render (block think t ∷ ps) s (free, rest) =
    regions-region lt_sign (open_rest think) (close_rest think) t (render ps s) free
    ∙ ap (t ∷◌) (regions-render ps s rest)
regions-render (block other t ∷ ps) s (free, rest) =
    regions-other lt_sign (open_rest think) (close_rest think) (open_rest other) (close_rest other)
      (open_rest-Free other) (close_rest-Free other) t (render ps s) free
      (miss_open think other (λ e. cc)) (miss_close think other)
    ∙ regions-render ps s rest

starts_with-strip_prefix : (p s : Text) → strip_prefix p s ≡ none → starts_with p s ≡ false
unfolding strip_prefix starts_with
starts_with-strip_prefix [] s e = cc
starts_with-strip_prefix (c ∷ p) [] e = refl
starts_with-strip_prefix (c ∷ p) (d ∷ s) e = ground (arith, starts_with-strip_prefix p s)

includes-miss :
    (tag : Tag) (u s : Text)
    → strip_prefix (opening tag) (lt_sign ∷ (u ++ s)) ≡ none
    → Free lt_sign u
    → includes (opening tag) (lt_sign ∷ (u ++ s)) ≡ includes (opening tag) s
includes-miss tag u s miss free =
    includes-cons (opening tag) lt_sign (u ++ s) (starts_with-strip_prefix (opening tag) _ miss)
    ∙ includes-Free lt_sign (open_rest tag) u s free

includes-block :
    (tag other : Tag) (t s : Text)
    → tag ≢ other
    → Free lt_sign t
    → includes (opening tag) (opening other ++ (t ++ (closing other ++ s)))
      ≡ includes (opening tag) s
includes-block tag other t s n free =
    includes-miss tag (open_rest other) (t ++ (closing other ++ s))
      (miss_open tag other n (t ++ (closing other ++ s))) (open_rest-Free other)
    ∙ includes-Free lt_sign (open_rest tag) t (closing other ++ s) free
    ∙ includes-miss tag (close_rest other) s (miss_close tag other s) (close_rest-Free other)

-- Without its blocks, a tag does not occur in the raw text.
pub includes-render :
    (tag : Tag) (ps : List Piece) (s : Text)
    → IsPlain ps
    → includes (opening tag) (render (without tag ps) s) ≡ includes (opening tag) s
includes-render think [] s free = refl
includes-render _ [] s free = refl
includes-render tag (plain t ∷ ps) s (free, rest) =
    includes-Free lt_sign (open_rest tag) t (render (without tag ps) s) free
    ∙ includes-render tag ps s rest
includes-render think (block think t ∷ ps) s (free, rest) = includes-render think ps s rest
includes-render tool_use (block tool_use t ∷ ps) s (free, rest) = includes-render tool_use ps s rest
includes-render tool_result (block tool_result t ∷ ps) s (free, rest) =
    includes-render tool_result ps s rest
includes-render tag (block other t ∷ ps) s (free, rest) =
    includes-block tag other t (render (without tag ps) s) (λ e. cc) free
    ∙ includes-render tag ps s rest

pub without-IsPlain : (tag : Tag) (ps : List Piece) → IsPlain ps → IsPlain (without tag ps)
without-IsPlain think [] free = tt
without-IsPlain _ [] free = tt
without-IsPlain tag (plain t ∷ ps) (free, rest) = (free, without-IsPlain tag ps rest)
without-IsPlain think (block think t ∷ ps) (_, rest) = without-IsPlain think ps rest
without-IsPlain tool_use (block tool_use t ∷ ps) (_, rest) = without-IsPlain tool_use ps rest
without-IsPlain tool_result (block tool_result t ∷ ps) (_, rest) =
    without-IsPlain tool_result ps rest
without-IsPlain tag (block other t ∷ ps) (free, rest) = (free, without-IsPlain tag ps rest)

-- Without all three tags the plain text is left.
pub render-without :
    (ps : List Piece) (s : Text)
    → render (without tool_result (without tool_use (without think ps))) s ≡ plain_text ps ++ s
render-without [] s = refl
render-without (plain t ∷ ps) s =
    ap (t ++◌) (render-without ps s) ∙ sym (append_assoc t (plain_text ps) s)
render-without (block think t ∷ ps) s = render-without ps s
render-without (block tool_use t ∷ ps) s = render-without ps s
render-without (block tool_result t ∷ ps) s = render-without ps s

pub plain_text-Free : (ps : List Piece) → IsPlain ps → Free lt_sign (plain_text ps)
plain_text-Free [] free = tt
plain_text-Free (plain t ∷ ps) (free, rest) =
    All-append (λ c. c ≢ lt_sign) t (plain_text ps) free (plain_text-Free ps rest)
plain_text-Free (block _ t ∷ ps) (_, rest) = plain_text-Free ps rest

pub render-append : (ps : List Piece) (s : Text) → render ps s ≡ render ps [] ++ s
render-append [] s = refl
render-append (plain t ∷ ps) s =
    ap (t ++◌) (render-append ps s) ∙ sym (append_assoc t (render ps []) s)
render-append (block tag t ∷ ps) s =
    ap (λ r. opening tag ++ (t ++ (closing tag ++ r))) (render-append ps s) ∙ simp append_assoc
