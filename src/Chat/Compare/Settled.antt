-- ===== src/Chat/Compare/Settled.antt =====
-- Both columns of the compare mode, whatever the two streams come to and whichever ends first.
use recif.Base.{
  ℕ, ◌≡◌, refl, ◌∙◌, true, false, ◌||◌, Bool-cases, Option-cases, inl, inr, Option, none, some,
  List, [], ◌∷◌, ◌++◌, foldl, arith,
}
use mathlib.Core.List.{map-append}
use recif.Text.{Text, codes, strip_prefix, trim}
use recif.Json.{nonempty}
use recif.Chat.{user, agent, bare}
use recif.Chat.Stream.{split_lines}
use recif.Chat.Transcript.{user_view, transcript, update_last-transcript}
use recif.Chat.Send.{
  Failure, aborted, error, other, finished, broken, Exchange, unreachable, answered, is_ok,
}
use recif.Chat.Compare.{
  stable, canary, Column, Compare, Reading, at_variant, begin_column, send_compare, show_token,
  read_line, read_chunk, read_chunks, show_unreachable, read_column, stream_variant,
}

module _ (parse_token : Text → Option Text) where
  show_token-transcript :
      (r : Reading) (token : Text)
      → transcript (show_token parse_token r token).messages ≡ transcript r.messages
  unfolding show_token
  show_token-transcript r token = elim (Bool-cases (nonempty token)) [
    | inl full ↦ rw full (update_last-transcript _ r.messages (λ m. refl))
    | inr empty ↦ rw empty
  ]

  read_line-transcript :
      (r : Reading) (line : Text)
      → transcript (read_line parse_token r line).messages ≡ transcript r.messages
  unfolding read_line strip_prefix
  read_line-transcript r line = elim (Option-cases (strip_prefix (codes "data: ") line)) [
    | inl unmarked ↦ rw unmarked
    | inr (payload, found) ↦ elim (Option-cases (parse_token payload)) [
      | inl thrown ↦ rw (found, thrown)
      | inr (token, parsed) ↦ rw (found, parsed) (show_token-transcript r token)
    ]
  ]

  lines-transcript :
      (lines : List Text) (r : Reading)
      → transcript (foldl (read_line parse_token) r lines).messages ≡ transcript r.messages
  lines-transcript [] r = refl
  lines-transcript (l ∷ lines) r =
      lines-transcript lines (read_line parse_token r l) ∙ read_line-transcript r l

  chunks-transcript :
      (chunks : List Text) (r : Reading)
      → transcript (foldl (read_chunk parse_token) r chunks).messages ≡ transcript r.messages
  unfolding read_chunk
  chunks-transcript [] r = refl
  chunks-transcript (c ∷ cs) r =
      chunks-transcript cs (read_chunk parse_token r c)
      ∙ lines-transcript (split_lines (r.buffer ++ c)).0 r

  show_unreachable-transcript :
      (f : Failure) (c : Column)
      → transcript (show_unreachable parse_token f c).messages ≡ transcript c.messages
  unfolding show_unreachable
  show_unreachable-transcript aborted c = refl
  show_unreachable-transcript (error msg) c = update_last-transcript _ c.messages (λ m. refl)
  show_unreachable-transcript other c = update_last-transcript _ c.messages (λ m. refl)

  read_column-transcript :
      (elapsed : ℕ) (x : Exchange) (c : Column)
      → transcript (read_column parse_token elapsed x c).messages ≡ transcript c.messages
  unfolding read_column read_chunks
  read_column-transcript elapsed (unreachable f) c = show_unreachable-transcript f c
  read_column-transcript elapsed (answered status chunks finished) c =
      elim (Bool-cases (is_ok status)) [
        | inl good ↦ rw good (chunks-transcript chunks _)
        | inr bad ↦ rw bad (show_unreachable-transcript _ c)
      ]
  read_column-transcript elapsed (answered status chunks (broken f)) c =
      elim (Bool-cases (is_ok status)) [
        | inl good ↦ rw good (show_unreachable-transcript f _ ∙ chunks-transcript chunks _)
        | inr bad ↦ rw bad (show_unreachable-transcript _ c)
      ]

-- What holds of a column once its stream has ended.
pub record Settled (msg : Text) (before after : Column) : Type 0 where
  pub sending : after.sending ≡ false
  pub kept :
      transcript after.messages ≡ transcript before.messages ++ (some (bare user msg) ∷ none ∷ [])

send_compare-taken :
    (c : Compare)
    → nonempty (trim c.input) ≡ true
    → (c.stable_column.sending || c.canary_column.sending) ≡ false
    → (send_compare true c).0 ≡ record {
      input = [];
      stable_column = begin_column (trim c.input) c.stable_column;
      canary_column = begin_column (trim c.input) c.canary_column;
    }
unfolding send_compare
send_compare-taken c full free = ground (arith, full, free)

begin_column-transcript :
    (msg : Text) (c : Column)
    → transcript (begin_column msg c).messages
      ≡ transcript c.messages ++ (some (bare user msg) ∷ none ∷ [])
unfolding begin_column
begin_column-transcript msg c = map-append user_view c.messages (bare user msg ∷ bare agent [] ∷ [])

column-Settled :
    (parse_token : Text → Option Text) (n : ℕ) (x : Exchange) (msg : Text) (c : Column)
    → Settled msg c (record (read_column parse_token n x (begin_column msg c)) { sending = false })
column-Settled parse_token n x msg c = record {
  sending = refl;
  kept =
      read_column-transcript parse_token n x (begin_column msg c) ∙ begin_column-transcript msg c;
}

-- A message of the compare mode is taken if there is a text, an agent, and no column is still being
-- answered. Whatever the two servers do, and in whichever order the streams end, the state is the
-- same: the input is empty, and each column is free again and has the message and one answer more.
pub stream_variant-Settled :
    (parse_token : Text → Option Text) (n m : ℕ) (x y : Exchange) (c : Compare)
    → nonempty (trim c.input) ≡ true
    → (c.stable_column.sending || c.canary_column.sending) ≡ false
    → (stream_variant parse_token stable n x
          (stream_variant parse_token canary m y (send_compare true c).0)
        ≡ stream_variant parse_token canary m y
            (stream_variant parse_token stable n x (send_compare true c).0))
      × Settled
          (trim c.input)
          c.stable_column
          (stream_variant parse_token stable n x
            (stream_variant parse_token canary m y (send_compare true c).0)).stable_column
      × Settled
          (trim c.input)
          c.canary_column
          (stream_variant parse_token stable n x
            (stream_variant parse_token canary m y (send_compare true c).0)).canary_column
unfolding stream_variant at_variant
stream_variant-Settled parse_token n m x y c full free = rw (send_compare-taken c full free) (
  refl,
  column-Settled parse_token n x (trim c.input) c.stable_column,
  column-Settled parse_token m y (trim c.input) c.canary_column,
)
