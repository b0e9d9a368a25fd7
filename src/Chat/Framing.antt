-- ===== src/Chat/Framing.antt =====
-- The chunks of a reply are cut wherever the network cuts them. What the page makes of them depends
-- on the text alone.
use recif.Base.{
  All, All-append, ◌≢◌, ℕ, ◌≡◌, refl, sym, ap, ◌∙◌, true, false, Option, none, some, List, [], ◌∷◌,
  ◌++◌, foldl, ◌==◌, arith, append_assoc, append-nil, Bool-cases, inl, inr,
}
use recif.Text.{Text, codes, strip_prefix}
use recif.Text.Regions.{Free}
use recif.Chat.Events.{Event, Stream, Origin, handle_event}
use recif.Chat.Stream.{Reader, prepend, add_unit, split_lines, handle_line, feed, feed_all}

-- All chunks as one text.
abbrev pub concat : List Text → Text
concat [] = []
concat (c ∷ cs) = c ++ concat cs

abbrev with_lines : List Text → List Text × Text → List Text × Text
with_lines ls (more, last) = (ls ++ more, last)

module _ (c : ℕ) (lines : List Text) (last : Text) where
  pub add_unit-newline : (c == 10) ≡ true → add_unit c (lines, last) ≡ ([] ∷ lines, last)
  unfolding add_unit
  add_unit-newline h = rw h

  pub add_unit-other : (c == 10) ≡ false → add_unit c (lines, last) ≡ prepend c lines last
  unfolding add_unit
  add_unit-other h = rw h

add_unit-with_lines :
    (c : ℕ) (lines : List Text) (last t : Text)
    → add_unit c (with_lines lines (split_lines (last ++ t)))
      ≡ with_lines (add_unit c (lines, last)).0 (split_lines ((add_unit c (lines, last)).1 ++ t))
unfolding prepend split_lines
add_unit-with_lines c [] last t = elim (Bool-cases (c == 10)) [
  | inl newline ↦
      rw (add_unit-newline c [] last newline)
        (add_unit-newline c (split_lines (last ++ t)).0 (split_lines (last ++ t)).1 newline)
  | inr other ↦ rw (add_unit-other c [] last other)
]
add_unit-with_lines c (l ∷ lines) last t = elim (Bool-cases (c == 10)) [
  | inl newline ↦ rw (add_unit-newline c (l ∷ lines) last newline) (
      add_unit-newline c ((l ∷ lines) ++ (split_lines (last ++ t)).0) (split_lines (last ++ t)).1
        newline)
  | inr other ↦ rw (add_unit-other c (l ∷ lines) last other) (
      add_unit-other c ((l ∷ lines) ++ (split_lines (last ++ t)).0) (split_lines (last ++ t)).1
        other)
]

-- A part that is complete stays as it is when text comes behind it.
pub split_lines-append :
    (s t : Text)
    → split_lines (s ++ t) ≡ with_lines (split_lines s).0 (split_lines ((split_lines s).1 ++ t))
unfolding split_lines
split_lines-append [] t = refl
split_lines-append (c ∷ s) t =
    ap (add_unit c) (split_lines-append s t)
    ∙ add_unit-with_lines c (split_lines s).0 (split_lines s).1 t

pub foldl-append {ℓ κ} :
    {A : Type ℓ} {B : Type κ} (f : B → A → B) (xs ys : List A) (b : B)
    → foldl f b (xs ++ ys) ≡ foldl f (foldl f b xs) ys
foldl-append f [] ys b = refl
foldl-append f (x ∷ xs) ys b = foldl-append f xs ys (f b x)

-- A text without a line feed is one part.
abbrev pub IsPart : Text → Type 0
IsPart s = split_lines s ≡ ([], s)

add_unit-IsPart : (c : ℕ) (ls : List Text) (s : Text) → IsPart s → IsPart (add_unit c (ls, s)).1
unfolding prepend split_lines
add_unit-IsPart c [] s part = elim (Bool-cases (c == 10)) [
  | inl newline ↦ rw (add_unit-newline c [] s newline) part
  | inr other ↦ rw (add_unit-other c [] s other) (rw part (add_unit-other c [] s other))
]
add_unit-IsPart c (l ∷ ls) s part = elim (Bool-cases (c == 10)) [
  | inl newline ↦ rw (add_unit-newline c (l ∷ ls) s newline) part
  | inr other ↦ rw (add_unit-other c (l ∷ ls) s other) part
]

-- What waits in the buffer is one part.
pub split_lines-IsPart : (s : Text) → IsPart (split_lines s).1
unfolding split_lines
split_lines-IsPart [] = refl
split_lines-IsPart (c ∷ s) =
    add_unit-IsPart c (split_lines s).0 (split_lines s).1 (split_lines-IsPart s)

module _ (parse_event : Text → Option Event) (o : Origin) where
  -- The reader after all of a text at once.
  abbrev pub read_text : Reader → Text → Reader
  read_text r s = record {
    buffer = (split_lines s).1;
    stream = foldl (handle_line parse_event o) r.stream (split_lines s).0;
  }

  feed_all-read_text :
      (chunks : List Text) (r : Reader)
      → IsPart r.buffer
      → feed_all parse_event o r chunks ≡ read_text r (r.buffer ++ concat chunks)
  unfolding feed_all feed
  feed_all-read_text [] r part = rw (append-nil r.buffer, part)
  feed_all-read_text (c ∷ cs) r part =
      feed_all-read_text cs (feed parse_event o r c) (split_lines-IsPart (r.buffer ++ c))
      ∙ sym (
          rw (
            ← append_assoc r.buffer c (concat cs),
            split_lines-append (r.buffer ++ c) (concat cs),
            foldl-append,
          ))

nil_IsPart : IsPart []
unfolding split_lines
nil_IsPart = refl

-- However the network cuts a reply into chunks, the page sees the same lines: those that a line feed
-- of the whole text ends, in order. What follows the last line feed is never read.
pub feed_all-concat :
    (parse_event : Text → Option Event) (o : Origin) (st : Stream) (chunks : List Text)
    → feed_all parse_event o (record { buffer = []; stream = st }) chunks ≡ record {
      buffer = (split_lines (concat chunks)).1;
      stream = foldl (handle_line parse_event o) st (split_lines (concat chunks)).0;
    }
feed_all-concat parse_event o st chunks =
    feed_all-read_text parse_event o chunks (record { buffer = []; stream = st }) nil_IsPart

-- The text of the server-sent events with the given payloads: `data: …` and an empty line for each.
abbrev pub frames : List Text → Text
frames [] = []
frames (p ∷ ps) = codes "data: " ++ (p ++ (codes "\n\n" ++ frames ps))

-- What one payload does.
abbrev pub on_payload : (Text → Option Event) → Origin → Stream → Text → Stream
on_payload parse_event o s p = elim (parse_event p) [ some e ↦ handle_event o e s | none ↦ s ]

pub split_lines-line :
    (p s : Text)
    → Free 10 p
    → split_lines (p ++ 10 ∷ s) ≡ (p ∷ (split_lines s).0, (split_lines s).1)
unfolding split_lines
split_lines-line [] s free = add_unit-newline 10 (split_lines s).0 (split_lines s).1 refl
split_lines-line (c ∷ p) s (n, free) =
    ap (add_unit c) (split_lines-line p s free)
    ∙ add_unit-other c (p ∷ (split_lines s).0) (split_lines s).1 (ground arith)
    ∙ unfold prepend in refl

-- A text without a line feed is its own last line.
pub split_lines-Free : (p : Text) → Free 10 p → split_lines p ≡ ([], p)
unfolding split_lines
split_lines-Free [] free = refl
split_lines-Free (c ∷ p) (n, free) =
    ap (add_unit c) (split_lines-Free p free)
    ∙ add_unit-other c [] p (ground (arith, n))
    ∙ unfold prepend in refl

pub split_lines-frame :
    (p s : Text)
    → Free 10 p
    → split_lines (codes "data: " ++ (p ++ (codes "\n\n" ++ s)))
      ≡ ((codes "data: " ++ p) ∷ [] ∷ (split_lines s).0, (split_lines s).1)
split_lines-frame p s free =
    split_lines-line (codes "data: " ++ p) (10 ∷ s)
      (All-append (λ c. c ≢ 10) (codes "data: ") p (omega arith) free)
    ∙ rw (split_lines-line [] s tt)

module _ (parse_event : Text → Option Event) (o : Origin) where
  handle_line-data :
      (s : Stream) (p : Text)
      → handle_line parse_event o s (codes "data: " ++ p) ≡ on_payload parse_event o s p
  unfolding handle_line strip_prefix
  handle_line-data s p = refl

  handle_line-nil : (s : Stream) → handle_line parse_event o s [] ≡ s
  unfolding handle_line strip_prefix
  handle_line-nil s = refl

  foldl-frames :
      (ps : List Text) (s : Stream)
      → All (Free 10) ps
      → ((split_lines (frames ps)).1 ≡ [])
        × (foldl (handle_line parse_event o) s (split_lines (frames ps)).0
            ≡ foldl (on_payload parse_event o) s ps)
  unfolding split_lines handle_line strip_prefix
  foldl-frames [] s free = (refl, refl)
  foldl-frames (p ∷ ps) s (free, rest) =
      let (clean, same) = foldl-frames ps (on_payload parse_event o s p) rest in
      rw
        (
          split_lines-frame p (frames ps) free,
          handle_line-data s p,
          handle_line-nil (on_payload parse_event o s p),
        )
        (clean, same)

-- If the chunks are, put together, the events with the given payloads, none with a line feed in it,
-- then the page takes in exactly those payloads, in order, and nothing is left over.
pub feed_all-frames :
    (parse_event : Text → Option Event) (o : Origin) (st : Stream) (chunks ps : List Text)
    → All (Free 10) ps
    → concat chunks ≡ frames ps
    → feed_all parse_event o (record { buffer = []; stream = st }) chunks
      ≡ record { buffer = []; stream = foldl (on_payload parse_event o) st ps }
feed_all-frames parse_event o st chunks ps free whole =
    let (clean, same) = foldl-frames parse_event o ps st free in
    feed_all-concat parse_event o st chunks ∙ rw whole (ground (arith, clean, same))
