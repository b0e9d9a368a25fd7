-- ===== src/Thinking/Replies.antt =====
-- What parseThinking, in both its versions, makes of the raw text of a reply, closed or still
-- streaming.
use recif.Base.{
  ◌≡◌, sym, ap, ◌∙◌, false, Option-cases, inl, inr, List, [], ◌∷◌, ◌++◌, map, append-nil, arith,
}
use recif.Text.{Text, includes, split_last, trim, join}
use recif.Text.Regions.{Free, remove_regions}
use recif.Text.Search.{split_last-none, includes-trim, includes-Free}
use recif.Text.Trim.{trim_idem}
use recif.Thinking.{
  think_open, think_close, tool_use_open, tool_use_close, tool_result_open, tool_result_close,
  separator, take_unclosed, split_thinking, parse_partial, cut_unclosed_tool, strip_tools,
  parse_thinking, clean_content,
}
use recif.Thinking.Pieces.{
  think, tool_use, tool_result, Piece, open_rest, render, lt_sign, IsPlain, plain_text, thoughts,
  without,
}
use recif.Thinking.Pieces.Laws.{without-IsPlain, render-without, plain_text-Free}
use recif.Thinking.Thoughts.{
  removed-trim, removed-render, includes-nil, split_thinking-render, split_thinking-streaming,
}

plain_left :
    (ps : List Piece)
    → render (without tool_result (without tool_use (without think ps))) [] ≡ plain_text ps
plain_left ps = render-without ps [] ∙ append-nil (plain_text ps)

-- Plain text without a "<" holds no open tool.
cut_unclosed_tool-Free : (t : Text) → Free lt_sign t → cut_unclosed_tool (trim t) ≡ trim t
unfolding cut_unclosed_tool
cut_unclosed_tool-Free t free = ground (arith, split_last-none tool_use_open (trim t) absent)
  where
    absent : includes tool_use_open (trim t) ≡ false
    absent = includes-trim tool_use_open t (
        ap (includes tool_use_open) (sym (append-nil t))
        ∙ includes-Free lt_sign (open_rest tool_use) t [] free
        ∙ includes-nil tool_use)

-- The tools are taken out of what is left.
strip_tools-render :
    (ps : List Piece)
    → IsPlain ps
    → strip_tools (trim (render (without think ps) [])) ≡ trim (plain_text ps)
unfolding strip_tools
strip_tools-render ps plain =
    ap (λ s. cut_unclosed_tool (trim (remove_regions tool_result_open tool_result_close s)))
      (removed-trim tool_use (render qs [])
        ∙ ap trim (removed-render tool_use qs (without-IsPlain think ps plain)))
    ∙ ap cut_unclosed_tool (
        removed-trim tool_result (render (without tool_use qs) [])
        ∙ ap trim (removed-render tool_result (without tool_use qs) both ∙ plain_left ps))
    ∙ cut_unclosed_tool-Free (plain_text ps) (plain_text-Free ps plain)
  where
    qs : List Piece
    qs = without think ps

    both : IsPlain (without tool_use qs)
    both = without-IsPlain tool_use qs (without-IsPlain think ps plain)

-- A reply that is complete, of plain texts and of blocks none of which holds the character "<": the
-- chat page shows each thought, trimmed, with a line of dashes between two, and as content the plain
-- text alone, trimmed; the tool blocks are gone.
pub parse_thinking-render :
    (ps : List Piece)
    → IsPlain ps
    → parse_thinking (render ps []) ≡ record {
      thinking = join separator (map trim (thoughts ps));
      content = trim (plain_text ps);
    }
unfolding parse_thinking
parse_thinking-render ps plain = rw (split_thinking-render ps plain, strip_tools-render ps plain)

-- A reply whose last thought is still being streamed, where neither this thought nor any of the plain
-- texts and blocks in front of it holds the character "<": that thought is shown, trimmed, behind the
-- others, and none of it reaches the content, which is the plain text alone, trimmed.
pub parse_thinking-streaming :
    (ps : List Piece) (p : Text)
    → IsPlain ps
    → Free lt_sign p
    → parse_thinking (render ps (think_open ++ p)) ≡ record {
      thinking = join separator (map trim (thoughts ps) ++ trim p ∷ []);
      content = trim (plain_text ps);
    }
unfolding parse_thinking
parse_thinking-streaming ps p plain free =
    rw (split_thinking-streaming ps p plain free, strip_tools-render ps plain)

-- The clean-up for the clipboard and the display agree on the content of a complete reply.
pub clean_content-parse_thinking :
    (ps : List Piece)
    → IsPlain ps
    → clean_content (render ps []) ≡ (parse_thinking (render ps [])).content
unfolding clean_content
clean_content-parse_thinking ps plain =
    ap
      (λ s. trim (
        remove_regions tool_result_open tool_result_close
          (remove_regions tool_use_open tool_use_close s)))
      (removed-render think ps plain)
    ∙ ap (λ s. trim (remove_regions tool_result_open tool_result_close s))
        (removed-render tool_use (without think ps) one)
    ∙ ap trim (
        removed-render tool_result (without tool_use (without think ps))
          (without-IsPlain tool_use (without think ps) one)
        ∙ plain_left ps)
    ∙ sym (ap (λ r. r.content) (parse_thinking-render ps plain))
  where
    one : IsPlain (without think ps)
    one = without-IsPlain think ps plain

-- The live preview of the notifications has the same thoughts, but keeps the tool blocks: its
-- content is the reply without the think blocks alone, trimmed.
pub parse_partial-render :
    (ps : List Piece)
    → IsPlain ps
    → parse_partial (render ps []) ≡ record {
      thinking = (parse_thinking (render ps [])).thinking;
      content = trim (render (without think ps) []);
    }
unfolding parse_partial parse_thinking
parse_partial-render ps plain = rw (split_thinking-render ps plain)

split_thinking-trimmed : (raw : Text) → trim (split_thinking raw).1 ≡ (split_thinking raw).1
unfolding split_thinking take_unclosed
split_thinking-trimmed raw =
    elim (Option-cases (split_last think_open (trim (remove_regions think_open think_close raw)))) [
      | inl gone ↦ ground (arith, trim_idem (remove_regions think_open think_close raw))
      | inr ((before, from), found) ↦
          ground (arith, trim_idem before, trim_idem (remove_regions think_open think_close raw))
    ]

-- Whatever the model sends, complete or not, the content that is shown has no white space at its
-- ends.
pub parse_thinking-trimmed :
    (raw : Text) → trim (parse_thinking raw).content ≡ (parse_thinking raw).content
unfolding parse_thinking strip_tools cut_unclosed_tool
parse_thinking-trimmed raw = trimmed (
    remove_regions tool_result_open tool_result_close
      (trim (remove_regions tool_use_open tool_use_close (split_thinking raw).1)))
  where
    trimmed : (s : Text) → trim (cut_unclosed_tool (trim s)) ≡ cut_unclosed_tool (trim s)
    trimmed s = elim (Option-cases (split_last tool_use_open (trim s))) [
      | inl gone ↦ ground (arith, trim_idem s)
      | inr ((before, from), found) ↦ ground (arith, trim_idem before, trim_idem s)
    ]
