-- ===== src/Chat/Compare.antt =====
-- Compare mode of the chat page: sendCompareMessage and streamCompareVariant, which run one message
-- against the stable version of an agent and its canary.
pub mod Settled
mod Tests
use recif.Base.{
  ℕ, Bool, true, false, not, ◌||◌, Option, none, some, List, [], ◌∷◌, ◌++◌, foldl, if◌then◌else◌,
}
use recif.Text.{Text, codes, strip_prefix, trim}
use recif.Json.{nonempty}
use recif.Thinking.{parse_thinking}
use recif.Chat.{ChatMessage, user, agent, bare, update_last}
use recif.Chat.Stream.{split_lines}
use recif.Chat.Send.{
  Failure, aborted, error, finished, broken, Exchange, unreachable, answered, is_ok,
}

pub data Variant : Type 0 where
  stable canary : Variant

-- One column: its messages, whether it is being answered, and the latency in milliseconds.
pub record Column : Type 0 where
  pub messages : List ChatMessage
  pub sending : Bool
  pub latency : Option ℕ

pub record Compare : Type 0 where
  pub input : Text
  pub stable_column : Column
  pub canary_column : Column

-- What a column shows while a reply is read: `rawAccum` beside the messages.
pub record Reading : Type 0 where
  pub buffer : Text
  pub raw_accum : Text
  pub messages : List ChatMessage

-- `{ ...prev, [variant]: f(prev[variant]) }`
unfoldable pub at_variant : Variant → (Column → Column) → Compare → Compare
at_variant stable f c = record c { stable_column = f c.stable_column }
at_variant canary f c = record c { canary_column = f c.canary_column }

-- From the guard to the two streams.
unfoldable pub begin_column : Text → Column → Column
begin_column msg c = record {
  messages = c.messages ++ (bare user msg ∷ bare agent [] ∷ []);
  sending = true;
  latency = none;
}

-- sendCompareMessage without the streams that it starts: the new state, and the message for both if
-- there is one. `chosen` says whether an agent is selected.
unfoldable pub send_compare : Bool → Compare → Compare × Option Text
send_compare chosen c =
    let msg = trim c.input in
    if not (nonempty msg) || not chosen
    then (c, none)
    else if c.stable_column.sending || c.canary_column.sending
    then (c, none)
    else (
      record {
        input = [];
        stable_column = begin_column msg c.stable_column;
        canary_column = begin_column msg c.canary_column;
      },
      some msg,
    )

-- `parse_token` is JSON.parse followed by `.token`; an empty text stands for a token that is
-- missing, and `none` for what throws.
module _ (parse_token : Text → Option Text) where
  unfoldable pub show_token : Reading → Text → Reading
  show_token r token =
      let raw = r.raw_accum ++ token in
      let parsed = parse_thinking raw in
      if nonempty token
      then record r {
        raw_accum = raw;
        messages =
            update_last
              (λ m. record m { content = parsed.content; thinking = some parsed.thinking })
              r.messages;
      }
      else r

  unfoldable pub read_line : Reading → Text → Reading
  read_line r line = elim (strip_prefix (codes "data: ") line) [
    | some payload ↦ elim (parse_token payload) [ some token ↦ show_token r token | none ↦ r ]
    | none ↦ r
  ]

  unfoldable pub read_chunk : Reading → Text → Reading
  read_chunk r chunk =
      let (lines, rest) = split_lines (r.buffer ++ chunk) in
      record (foldl read_line r lines) { buffer = rest }

  unfoldable pub read_chunks : List ChatMessage → List Text → List ChatMessage
  read_chunks messages chunks =
      let start : Reading = record { buffer = []; raw_accum = []; messages = messages } in
      (foldl read_chunk start chunks).messages

  -- The `catch` block of a variant.
  unfoldable pub show_unreachable : Failure → Column → Column
  show_unreachable aborted c = c
  show_unreachable _ c = record c {
    messages =
        update_last
          (λ m. record m {
            content =
                if nonempty m.content then m.content else codes "Error: Could not reach the agent.";
          })
          c.messages;
  }

  -- The `try` and the `catch` block; `elapsed` is `Date.now() - startTime`.
  unfoldable pub read_column : ℕ → Exchange → Column → Column
  read_column elapsed (unreachable f) c = show_unreachable f c
  read_column elapsed (answered status chunks ending) c =
      let read = record c { messages = read_chunks c.messages chunks } in
      if is_ok status
      then elim ending [
        | finished ↦ record read { latency = some elapsed }
        | broken f ↦ show_unreachable f read
      ]
      else show_unreachable (error (codes "HTTP ")) c

  -- streamCompareVariant
  unfoldable pub stream_variant : Variant → ℕ → Exchange → Compare → Compare
  stream_variant v elapsed x =
      at_variant v (λ c. record (read_column elapsed x c) { sending = false })
