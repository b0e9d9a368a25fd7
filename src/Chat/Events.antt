-- ===== src/Chat/Events.antt =====
-- What one server-sent event does to the page: the body of the loop over the lines in sendMessage,
-- one function for each `if` on the event, in the order of the source. An updater that is passed to
-- a state setter is applied where it is passed.
use recif.Base.{
  Bool, true, false, not, ◌&&◌, Option, none, some, List, [], ◌∷◌, ◌++◌, if◌then◌else◌,
}
use mathlib.Core.Option
use recif.Text.{Text, codes, trim}
use recif.Json.{Json, obj, end, nonempty}
use recif.Thinking.{parse_thinking}
use recif.Chat.{
  ChatMessage, ChatPage, Block, text, component, confirm, Confirm, Source, PendingGeneration,
  is_agent, is_set, same_cid, update_last,
}

-- The object that JSON.parse returns for a line. An empty text stands for a field that is missing
-- or empty, which the code tells apart nowhere.
pub record Event : Type 0 where
  pub token : Text
  pub sources : Option (List Source)
  pub component : Text
  pub props : Option Json
  pub confirm : Option Confirm
  pub conversation_id : Text
  pub done : Bool
  pub trace_id : Text
  pub error : Text
  pub suggestions : Option (List Text)

-- The page with the variables of the reading loop that an event sees.
pub record Stream : Type 0 where
  pub page : ChatPage
  pub raw_accum : Text
  pub watch_registered : Bool
  pub stream_blocks : List Block

-- The conversation that the stream began in, and the agent that it talks to.
pub record Origin : Type 0 where
  pub active_cid : Option Text
  pub slug : Text
  pub agent_name : Text

abbrev pub set_messages : (List ChatMessage → List ChatMessage) → Stream → Stream
set_messages f s = record s { page = record s.page { messages = f s.page.messages } }

-- `streamBlocks.length > 0 ? [...streamBlocks] : undefined`
abbrev pub some_blocks : List Block → Option (List Block)
some_blocks [] = none
some_blocks (b ∷ bs) = some (b ∷ bs)

-- The text that came so far becomes a block, and the accumulation starts anew.
unfoldable pub flush_text : Stream → Stream
flush_text s =
    if nonempty (trim s.raw_accum)
    then record s {
      stream_blocks = s.stream_blocks ++ text (parse_thinking s.raw_accum).content ∷ [];
      raw_accum = [];
    }
    else s

-- A block behind the flushed text, shown at once.
unfoldable pub push_block : Block → Stream → Stream
push_block b s =
    let flushed = flush_text s in
    let blocks = flushed.stream_blocks ++ b ∷ [] in
    set_messages (update_last (λ m. record m { blocks = some blocks }))
      (record flushed { stream_blocks = blocks })

-- The loop of the trace event: the last message of the agent that has no trace gets it.
unfoldable pub attach_trace : Text → List ChatMessage → Option (List ChatMessage)
attach_trace id [] = none
attach_trace id (m ∷ ms) = elim (attach_trace id ms) [
  | some later ↦ some (m ∷ later)
  | none ↦
      if is_agent m && not (is_set m.trace_id)
      then some (record m { trace_id = some id } ∷ ms)
      else none
]

-- `(last.content ? last.content + "\n\n" : "") + "**Error:** " + data.error`
unfoldable pub with_error : Text → Text → Text
with_error error content =
    (if nonempty content then content ++ codes "\n\n" else []) ++ (codes "**Error:** " ++ error)

module _ (o : Origin) where
  -- `streamingCidRef.current === activeCid`
  unfoldable pub is_current : Stream → Bool
  is_current s = same_cid s.page.streaming_cid o.active_cid

  unfoldable pub on_token : Event → Stream → Stream
  on_token e s =
      let raw = s.raw_accum ++ e.token in
      let parsed = parse_thinking raw in
      if nonempty e.token && is_current s
      then set_messages
          (update_last (λ m. record m {
            content = parsed.content;
            thinking = some parsed.thinking;
            blocks = some_blocks s.stream_blocks;
          }))
          (record s { raw_accum = raw })
      else s

  unfoldable pub on_sources : Event → Stream → Stream
  on_sources e s = elim e.sources [
    | some found ↦
        if is_current s
        then set_messages (update_last (λ m. record m { sources = some found })) s
        else s
    | none ↦ s
  ]

  unfoldable pub on_component : Event → Stream → Stream
  on_component e s =
      if nonempty e.component && is_current s
      then push_block (component e.component (Option.get_or e.props (obj end))) s
      else s

  unfoldable pub on_confirm : Event → Stream → Stream
  on_confirm e s = elim e.confirm [
    | some c ↦ if is_current s then push_block (confirm c) s else s
    | none ↦ s
  ]

  unfoldable pub on_conversation : Event → Stream → Stream
  on_conversation e s =
      let named =
        if is_current s
        then record s { page = record s.page { conversation_id = some e.conversation_id } }
        else s in
      let call : PendingGeneration = record {
        agent_slug = o.slug;
        agent_name = o.agent_name;
        conversation_id = e.conversation_id;
      } in
      if nonempty e.conversation_id
      then if s.watch_registered then named else record named {
        page = record named.page { watched = named.page.watched ++ call ∷ [] };
        watch_registered = true;
      }
      else s

  unfoldable pub on_done : Event → Stream → Stream
  on_done e s =
      let unlocked = record s { page = record s.page { sending = false } } in
      if e.done && is_current s
      then if nonempty e.trace_id
        then set_messages (update_last (λ m. record m { trace_id = some e.trace_id })) unlocked
        else unlocked
      else s

  unfoldable pub on_trace : Event → Stream → Stream
  on_trace e s =
      if nonempty e.trace_id && not e.done
      then set_messages (λ prev. Option.get_or (attach_trace e.trace_id prev) prev) s
      else s

  unfoldable pub on_error : Event → Stream → Stream
  on_error e s =
      if nonempty e.error && is_current s
      then set_messages (update_last (λ m. record m { content = with_error e.error m.content })) s
      else s

  unfoldable pub on_suggestions : Event → Stream → Stream
  on_suggestions e s = elim e.suggestions [
    | some found ↦ record s {
      page = record s.page { suggestions = found; suggestions_visible = true };
    }
    | none ↦ s
  ]

  unfoldable pub handle_event : Event → Stream → Stream
  handle_event e s = on_suggestions e (
      on_error e (
        on_trace e (
          on_done e
            (on_conversation e (on_confirm e (on_component e (on_sources e (on_token e s))))))))
