-- ===== src/Chat/Stream.antt =====
-- Reading the reply in sendMessage: chunks of text are cut into lines, each line that begins with
-- "data: " is an event, and what is left of the accumulated text becomes a last block. `parse_event`
-- stands for JSON.parse on the rest of a line, with `none` where it throws.
use recif.Base.{ℕ, ◌&&◌, Option, none, some, List, [], ◌∷◌, ◌++◌, foldl, ◌==◌, if◌then◌else◌}
use recif.Text.{Text, codes, strip_prefix, trim}
use recif.Json.{nonempty}
use recif.Thinking.{parse_thinking}
use recif.Chat.{text, update_last}
use recif.Chat.Events.{Event, Stream, Origin, set_messages, handle_event}

-- A code unit that is no line feed, in front of the parts of a text: it belongs to the first.
unfoldable pub prepend : ℕ → List Text → Text → List Text × Text
prepend c [] last = ([], c ∷ last)
prepend c (l ∷ lines) last = ((c ∷ l) ∷ lines, last)

unfoldable pub add_unit : ℕ → List Text × Text → List Text × Text
add_unit c (lines, last) = if c == 10 then ([] ∷ lines, last) else prepend c lines last

-- `s.split("\n")`, with the last part, which `pop` takes off, apart.
unfoldable pub split_lines : Text → List Text × Text
split_lines [] = ([], [])
split_lines (c ∷ s) = add_unit c (split_lines s)

-- The loop's own variable, the line that is not complete yet, beside what an event sees.
pub record Reader : Type 0 where
  pub buffer : Text
  pub stream : Stream

module _ (parse_event : Text → Option Event) (o : Origin) where
  -- The body of `for (const line of lines)`. A line that is no JSON is skipped by `catch {}`.
  unfoldable pub handle_line : Stream → Text → Stream
  handle_line s line = elim (strip_prefix (codes "data: ") line) [
    | some payload ↦ elim (parse_event payload) [ some e ↦ handle_event o e s | none ↦ s ]
    | none ↦ s
  ]

  -- One round of `while (true)`.
  unfoldable pub feed : Reader → Text → Reader
  feed r chunk =
      let (lines, rest) = split_lines (r.buffer ++ chunk) in
      record { buffer = rest; stream = foldl handle_line r.stream lines }

  unfoldable pub feed_all : Reader → List Text → Reader
  feed_all = foldl feed

-- The last block, once the stream is read.
unfoldable pub finalize : Stream → Stream
finalize s =
    let parsed = parse_thinking s.raw_accum in
    let blocks = s.stream_blocks ++ text parsed.content ∷ [] in
    if nonempty s.stream_blocks && nonempty (trim s.raw_accum)
    then set_messages
        (update_last (λ m. record m { content = parsed.content; blocks = some blocks }))
        (record s { stream_blocks = blocks })
    else s
