-- ===== src/AgentPage/Chat/Answered.antt =====
-- A message of the chat tab that is answered by tokens, with nothing in between.
use recif.Base.{
  ◌≡◌, refl, sym, ap, ◌∙◌, true, false, Option, none, some, List, [], ◌∷◌, ◌++◌, map, map_last,
  map_last-append, foldl, ◌+◌, append_assoc, ◌==◌, arith,
}
use recif.Text.{Text, trim}
use recif.Json.{nonempty}
use recif.Chat.{user, agent}
use recif.Chat.Outcome.{same_cid_refl}
use recif.Chat.Framing.{concat, frames}
use recif.Chat.Lines.{read_lines, read_lines-concat}
use recif.AgentPage.Chat.{
  AgentChat, Payload, append_token, take_line, finish_stream, closed, end_stream, ChatEvent, sent,
  chunk, ended, on_event, on_events, begin_message,
}
use recif.AgentPage.Chat.Tokens.{with_text, reading, buffered, Written, on_chunks, take_frames}

-- The chat when the message was sent.
abbrev asked : AgentChat → AgentChat
asked chat = record chat {
  input = [];
  messages =
      chat.messages
      ++ (record { role = user; content = trim chat.input }
          ∷ record { role = agent; content = [] }
          ∷ []);
  sending = true;
  streaming_cid = chat.conversation_id;
  abort_ref = some chat.next;
  next = chat.next + 1;
}

abbrev pub answered : Text → AgentChat → AgentChat
answered t chat = record chat {
  input = [];
  messages =
      chat.messages
      ++ (record { role = user; content = trim chat.input }
          ∷ record { role = agent; content = t }
          ∷ []);
  sending = false;
  streaming_cid = none;
  abort_ref = none;
  running = [];
  next = chat.next + 1;
}

module _ (parse : Text → Option Payload) where
  on_events-append :
      (es fs : List ChatEvent) (chat : AgentChat)
      → on_events parse (es ++ fs) chat ≡ on_events parse fs (on_events parse es chat)
  unfolding on_events
  on_events-append [] fs chat = refl
  on_events-append (e ∷ es) fs chat = on_events-append es fs (on_event parse e chat)

  on_sent :
      (chat : AgentChat)
      → chat.running ≡ []
      → chat.sending ≡ false
      → nonempty (trim chat.input) ≡ true
      → on_event parse sent chat ≡ reading (buffered chat.next chat.conversation_id []) (asked chat)
  unfolding on_event begin_message
  on_sent chat alone free typed = ground (arith, alone, free, typed)

  messages-asked :
      (t : Text) (chat : AgentChat)
      → (with_text t (asked chat)).messages ≡ (answered t chat).messages
  unfolding append_token
  messages-asked t chat =
      let before = chat.messages ++ record { role = user; content = trim chat.input } ∷ [] in
      ap (map_last (append_token t)) (
        sym (
          append_assoc chat.messages (record { role = user; content = trim chat.input } ∷ [])
            (record { role = agent; content = [] } ∷ [])))
      ∙ map_last-append (append_token t) before (record { role = agent; content = [] })
      ∙ append_assoc chat.messages (record { role = user; content = trim chat.input } ∷ [])
          (record { role = agent; content = t } ∷ [])

  on_ended :
      (t : Text) (chat : AgentChat)
      → on_event parse
          (ended chat.next closed)
          (reading (buffered chat.next chat.conversation_id []) (with_text t (asked chat)))
        ≡ answered t chat
  unfolding on_event end_stream finish_stream
  on_ended t chat =
      let same : (chat.next == chat.next) ≡ true = ground arith in
      rw (on_event, same, same_cid_refl chat.conversation_id)
        (rw same (ap (λ ms. record (answered t chat) { messages = ms }) (messages-asked t chat)))

  -- A message that is sent with no other stream running, and whose answer is a sequence of tokens,
  -- cut into chunks anywhere: at the end the messages are those before, the trimmed input, and one
  -- answer with the tokens joined, the input is empty and free, and no stream is left.
  pub on_events-answered :
      (write : Text → Text) (tokens chunks : List Text) (chat : AgentChat)
      → chat.running ≡ []
      → chat.sending ≡ false
      → nonempty (trim chat.input) ≡ true
      → Written parse chat.conversation_id write tokens
      → concat chunks ≡ frames (map write tokens)
      → on_events parse (sent ∷ (map (chunk chat.next) chunks ++ ended chat.next closed ∷ [])) chat
        ≡ answered (concat tokens) chat
  unfolding on_events
  on_events-answered write tokens chunks chat alone free typed written whole =
      let cid = chat.conversation_id in
      let last = ended chat.next closed ∷ [] in
      let (clean, same) =
        take_frames parse cid write tokens (asked chat) (same_cid_refl cid) written in
      let read : foldl (read_lines (take_line parse cid)) ([], asked chat) chunks
          ≡ ([], with_text (concat tokens) (asked chat)) =
        read_lines-concat (take_line parse cid) chunks (asked chat)
        ∙ rw (whole, clean, same) refl in
      ap (on_events parse (map (chunk chat.next) chunks ++ last)) (on_sent chat alone free typed)
      ∙ on_events-append (map (chunk chat.next) chunks) last _
      ∙ ap (on_events parse last) (
          on_chunks parse cid chat.next chunks [] (asked chat)
          ∙ ap (λ p. reading (buffered chat.next cid p.0) p.1) read)
      ∙ on_ended (concat tokens) chat
