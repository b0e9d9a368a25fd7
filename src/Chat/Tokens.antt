-- ===== src/Chat/Tokens.antt =====
-- A reply that is streamed as text alone: the bubble shows what parseThinking makes of all tokens
-- together, wherever they are cut.
use recif.Base.{
  ◌≡◌, refl, sym, ap, ◌∙◌, true, false, none, some, List, [], ◌∷◌, ◌++◌, foldl, All, append_assoc,
  append-nil, map_last-append, if◌then◌else◌,
}
use recif.Text.{Text}
use recif.Json.{nonempty}
use recif.Thinking.{parse_thinking}
use recif.Chat.{ChatMessage, is_agent, update_last}
use recif.Chat.Events.{
  Event, Stream, Origin, some_blocks, set_messages, is_current, on_token, on_sources, on_component,
  on_confirm, on_conversation, on_done, on_trace, on_error, on_suggestions, handle_event,
}
use recif.Chat.Framing.{concat}

-- `{"token": t}`
abbrev pub token_event : Text → Event
token_event t = record {
  token = t;
  sources = none;
  component = [];
  props = none;
  confirm = none;
  conversation_id = [];
  done = false;
  trace_id = [];
  error = [];
  suggestions = none;
}

-- A message that shows the raw text.
abbrev pub showing : Text → Stream → ChatMessage → ChatMessage
showing raw s m = record m {
  content = (parse_thinking raw).content;
  thinking = some (parse_thinking raw).thinking;
  blocks = some_blocks s.stream_blocks;
}

abbrev after_token : Text → Stream → Stream
after_token t s =
    set_messages (update_last (showing (s.raw_accum ++ t) s))
      (record s { raw_accum = s.raw_accum ++ t })

module _ (o : Origin) where
  pub handle_event-token_event :
      (t : Text) (s : Stream) → handle_event o (token_event t) s ≡ on_token o (token_event t) s
  unfolding handle_event on_sources on_component on_confirm on_conversation on_done on_trace
      on_error on_suggestions
  handle_event-token_event t s = refl

  on_token-shown :
      (t : Text) (s : Stream)
      → is_current o s ≡ true
      → nonempty t ≡ true
      → on_token o (token_event t) s ≡ after_token t s
  unfolding on_token
  on_token-shown t s current full = simp (current, full)

  after_token-messages :
      (t : Text) (s : Stream) (ms : List ChatMessage) (m : ChatMessage)
      → is_agent m ≡ true
      → s.page.messages ≡ ms ++ m ∷ []
      → (after_token t s).page.messages ≡ ms ++ showing (s.raw_accum ++ t) s m ∷ []
  unfolding update_last
  after_token-messages t s ms m agent h =
      ap (update_last (showing (s.raw_accum ++ t) s)) h
      ∙ map_last-append _ ms m
      ∙ ap (λ b. ms ++ (if b then showing (s.raw_accum ++ t) s m else m) ∷ []) agent

  after_token-is_current :
      (t : Text) (s : Stream) → is_current o s ≡ true → is_current o (after_token t s) ≡ true
  unfolding is_current
  after_token-is_current t s h = h

  -- The stream behind the tokens.
  abbrev pub stream_tokens : Stream → List Text → Stream
  stream_tokens = foldl (λ s t. handle_event o (token_event t) s)

  stream_tokens-cons :
      (t : Text) (ts : List Text) (s : Stream)
      → is_current o s ≡ true
      → nonempty t ≡ true
      → stream_tokens s (t ∷ ts) ≡ stream_tokens (after_token t s) ts
  stream_tokens-cons t ts s current full =
      ap (λ u. stream_tokens u ts) (handle_event-token_event t s ∙ on_token-shown t s current full)

  -- As long as the stream's conversation is shown and the last message is the agent's, tokens, none
  -- of them empty, make that message show what parseThinking makes of all the text since the last
  -- block; the messages before it stay.
  pub stream_tokens-messages :
      (t : Text) (ts : List Text) (s : Stream) (ms : List ChatMessage) (m : ChatMessage)
      → is_current o s ≡ true
      → is_agent m ≡ true
      → s.page.messages ≡ ms ++ m ∷ []
      → All (λ u. nonempty u ≡ true) (t ∷ ts)
      → (stream_tokens s (t ∷ ts)).page.messages
        ≡ ms ++ showing (s.raw_accum ++ concat (t ∷ ts)) s m ∷ []
  stream_tokens-messages t [] s ms m current agent h (full, _) =
      ap (λ (u : Stream). u.page.messages) (stream_tokens-cons t [] s current full)
      ∙ after_token-messages t s ms m agent h
      ∙ ap (λ raw. ms ++ showing (s.raw_accum ++ raw) s m ∷ []) (sym (append-nil t))
  stream_tokens-messages t (t' ∷ ts) s ms m current agent h (full, rest) =
      ap (λ (u : Stream). u.page.messages) (stream_tokens-cons t (t' ∷ ts) s current full)
      ∙ stream_tokens-messages t' ts (after_token t s) ms (showing (s.raw_accum ++ t) s m)
          (after_token-is_current t s current) agent (after_token-messages t s ms m agent h) rest
      ∙ ap (λ raw. ms ++ showing raw s m ∷ []) (append_assoc s.raw_accum t (concat (t' ∷ ts)))
