-- ===== src/Chat/Lines.antt =====
-- A reply as lines, whatever a line does to a state: the loop that the chat tab of the page of one
-- agent has too.
use recif.Base.{◌≡◌, refl, sym, ◌∙◌, List, [], ◌∷◌, ◌++◌, foldl, append_assoc, append-nil}
use recif.Text.{Text}
use recif.Chat.Stream.{split_lines}
use recif.Chat.Framing.{concat, IsPart, split_lines-append, split_lines-IsPart, foldl-append}

module _ {S : Type 0} (on_line : S → Text → S) where
  -- One round: the buffer is what waits for its line feed.
  unfoldable pub read_lines : Text × S → Text → Text × S
  read_lines (buffer, s) chunk =
      let (lines, rest) = split_lines (buffer ++ chunk) in (rest, foldl on_line s lines)

  foldl-read_lines :
      (chunks : List Text) (buffer : Text) (s : S)
      → IsPart buffer
      → foldl read_lines (buffer, s) chunks ≡ (
        (split_lines (buffer ++ concat chunks)).1,
        foldl on_line s (split_lines (buffer ++ concat chunks)).0,
      )
  unfolding read_lines
  foldl-read_lines [] buffer s part = rw (append-nil buffer, part) refl
  foldl-read_lines (c ∷ cs) buffer s part =
      foldl-read_lines cs (split_lines (buffer ++ c)).1
        (foldl on_line s (split_lines (buffer ++ c)).0) (split_lines-IsPart (buffer ++ c))
      ∙ sym (
          rw (
            ← append_assoc buffer c (concat cs),
            split_lines-append (buffer ++ c) (concat cs),
            foldl-append,
          ))

  -- However a text is cut into chunks, the lines are the same.
  pub read_lines-concat :
      (chunks : List Text) (s : S)
      → foldl read_lines ([], s) chunks
        ≡ ((split_lines (concat chunks)).1, foldl on_line s (split_lines (concat chunks)).0)
  unfolding split_lines
  read_lines-concat chunks s = foldl-read_lines chunks [] s refl
