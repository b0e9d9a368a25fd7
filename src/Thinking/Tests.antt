-- ===== src/Thinking/Tests.antt =====
-- Runs of parseThinking on a small reply.
use recif.Base.{◌≡◌, List, [], ◌∷◌, ◌++◌, arith}
use recif.Text.{codes, trim, join}
use recif.Text.Regions.{Free}
use recif.Thinking.{think_open, separator, parse_thinking}
use recif.Thinking.Pieces.{Piece, plain, block, think, tool_use, render, IsPlain, lt_sign}
use recif.Thinking.Replies.{parse_thinking-render, parse_thinking-streaming}

-- `<think> a </think>Hi <tool_use>f</tool_use>you`
abbrev small_reply : List Piece
small_reply =
    block think (codes " a ")
    ∷ plain (codes "Hi ")
    ∷ block tool_use (codes "f")
    ∷ plain (codes "you")
    ∷ []

small_reply-IsPlain : IsPlain small_reply
small_reply-IsPlain = ground arith

parse_thinking-render_example :
    parse_thinking (render small_reply [])
    ≡ record { thinking = trim (codes " a "); content = trim (codes "Hi you") }
unfolding join
parse_thinking-render_example = parse_thinking-render small_reply small_reply-IsPlain

open_thought-Free : Free lt_sign (codes " b")
open_thought-Free = ground arith

parse_thinking-streaming_example :
    parse_thinking (render small_reply (think_open ++ codes " b")) ≡ record {
      thinking = join separator (trim (codes " a ") ∷ trim (codes " b") ∷ []);
      content = trim (codes "Hi you");
    }
parse_thinking-streaming_example =
    parse_thinking-streaming small_reply (codes " b") small_reply-IsPlain open_thought-Free
