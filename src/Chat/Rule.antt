-- ===== src/Chat/Rule.antt =====
-- The invariant rule of the reading loop: what every event keeps, the whole loop keeps.
use recif.Base.{Option, Option-cases, inl, inr, List, [], ◌∷◌, ◌++◌, foldl}
use recif.Text.{Text, codes, strip_prefix}
use recif.Chat.Events.{Event, Stream, Origin, handle_event}
use recif.Chat.Stream.{Reader, split_lines, handle_line, feed, feed_all}

module _ (parse_event : Text → Option Event) (o : Origin) (P : Stream → Type 0)
    (keep : (e : Event) (s : Stream) → P s → P (handle_event o e s)) where
  handle_line-rule : (s : Stream) (line : Text) → P s → P (handle_line parse_event o s line)
  unfolding handle_line strip_prefix
  handle_line-rule s line h = elim (Option-cases (strip_prefix (codes "data: ") line)) [
    | inl other ↦ rw other h
    | inr (payload, found) ↦ elim (Option-cases (parse_event payload)) [
      | inl thrown ↦ rw (found, thrown) h
      | inr (e, parsed) ↦ rw (found, parsed) (keep e s h)
    ]
  ]

  lines-rule :
      (lines : List Text) (s : Stream) → P s → P (foldl (handle_line parse_event o) s lines)
  lines-rule [] s h = h
  lines-rule (l ∷ lines) s h =
      lines-rule lines (handle_line parse_event o s l) (handle_line-rule s l h)

  pub feed_all-rule :
      (chunks : List Text) (r : Reader) → P r.stream → P (feed_all parse_event o r chunks).stream
  unfolding feed_all feed
  feed_all-rule [] r h = h
  feed_all-rule (c ∷ cs) r h =
      feed_all-rule cs (feed parse_event o r c)
        (lines-rule (split_lines (r.buffer ++ c)).0 r.stream h)
