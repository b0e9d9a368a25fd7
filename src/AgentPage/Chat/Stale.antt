-- ===== src/AgentPage/Chat/Stale.antt =====
-- Streams of the chat tab that run on after another was started or another conversation was loaded.
use recif.Base.{
  ℕ, ◌≡◌, refl, ap, ◌∙◌, Bool, true, false, not, Option, Option-cases, inl, inr, none, some, List,
  [], ◌∷◌, ◌++◌, foldl, filter, ◌+◌, ◌<◌, ◌==◌, arith,
}
use recif.Text.{Text, codes, strip_prefix, trim}
use recif.Chat.{user, agent, same_cid}
use recif.Chat.Stream.{split_lines}
use recif.Chat.Lines.{read_lines}
use recif.Text.Equality.{text_eq_refl}
use recif.Json.{nonempty}
use recif.AgentPage.Chat.{
  ChatEntry, Running, AgentChat, Payload, take_token, take_done, take_conversation, take_line,
  read_part, catch_failure, finish_stream, StreamEnd, closed, failed, end_stream, ChatEvent, sent,
  chunk, ended, find_running, on_event, on_events, begin_message, is_active,
}

-- What the user sees of the tab, and what decides whose stream is taken in.
pub record Seen : Type 0 where
  pub messages : List ChatEntry
  pub sending : Bool
  pub conversation_id : Option Text
  pub stored : Option Text
  pub streaming_cid : Option Text

abbrev pub seen : AgentChat → Seen
seen chat = record {
  messages = chat.messages;
  sending = chat.sending;
  conversation_id = chat.conversation_id;
  stored = chat.stored;
  streaming_cid = chat.streaming_cid;
}

-- An event of the stream with the controller.
pub data OfStream (c : ℕ) : Type 0 where
  part : Text → OfStream c
  stop : StreamEnd → OfStream c

abbrev pub event_of : {c : ℕ} → OfStream c → ChatEvent
event_of {c} (part t) = chunk c t
event_of {c} (stop end) = ended c end

module _ (parse : Text → Option Payload) where
  take_line-stale :
      (cid : Option Text) (chat : AgentChat) (line : Text)
      → is_active cid chat ≡ false
      → take_line parse cid chat line ≡ chat
  unfolding take_line take_token take_done take_conversation
  take_line-stale cid chat line stale = elim (Option-cases (strip_prefix (codes "data: ") line)) [
    | inl other ↦ rw (take_line, other) refl
    | inr (payload, e) ↦ elim (Option-cases (parse payload)) [
      | inl bad ↦ rw (take_line, e, bad) refl
      | inr (p, good) ↦ rw (take_line, e, good) (ground (arith, stale))
    ]
  ]

  take_lines-stale :
      (cid : Option Text) (chat : AgentChat) (lines : List Text)
      → is_active cid chat ≡ false
      → foldl (take_line parse cid) chat lines ≡ chat
  take_lines-stale cid chat [] stale = refl
  take_lines-stale cid chat (l ∷ ls) stale =
      ap (λ x. foldl (take_line parse cid) x ls) (take_line-stale cid chat l stale)
      ∙ take_lines-stale cid chat ls stale

  read_part-stale :
      (r : Running) (t : Text) (chat : AgentChat)
      → is_active r.active_cid chat ≡ false
      → seen (read_part parse r t chat) ≡ seen chat
  unfolding read_part read_lines
  read_part-stale r t chat stale =
      ap seen (take_lines-stale r.active_cid chat (split_lines (r.buffer ++ t)).0 stale)

  -- Where the page's reference to the conversation that is streamed differs from the conversation that
  -- a stream began in, a new chat counting as none, nothing that this stream still brings is seen: not
  -- its text, nor its failure or its end.
  pub on_event-stale :
      {c : ℕ} (e : OfStream c) (r : Running) (chat : AgentChat)
      → find_running c chat.running ≡ some r
      → same_cid chat.streaming_cid r.active_cid ≡ false
      → seen (on_event parse (event_of e) chat) ≡ seen chat
  unfolding on_event end_stream finish_stream catch_failure
  on_event-stale (part t) r chat found stale = rw (on_event, found) (read_part-stale r t chat stale)
  on_event-stale (stop closed) r chat found stale = ground (arith, found, stale)
  on_event-stale (stop (failed f)) r chat found stale = ground (arith, found, stale)

find_running-controller :
    (c : ℕ) (rs : List Running) (r : Running) → find_running c rs ≡ some r → r.controller ≡ c
find_running-controller c [] r found = absurd (cc (found))
find_running-controller c (q ∷ rs) r found = ground (arith, found, find_running-controller c rs r)

-- The chat once a message is sent in a conversation.
abbrev pub began : Text → AgentChat → AgentChat
began cid chat = record chat {
  input = [];
  messages =
      chat.messages
      ++ (record { role = user; content = trim chat.input }
          ∷ record { role = agent; content = [] }
          ∷ []);
  sending = true;
  streaming_cid = some cid;
  abort_ref = some chat.next;
  running = record { controller = chat.next; active_cid = some cid; buffer = [] } ∷ chat.running;
  next = chat.next + 1;
}

begin_message-began :
    (cid : Text) (chat : AgentChat)
    → chat.conversation_id ≡ some cid
    → chat.sending ≡ false
    → nonempty (trim chat.input) ≡ true
    → begin_message chat ≡ began cid chat
unfolding begin_message
begin_message-began cid chat conv free typed = ground (arith, conv, free, typed)

-- The chat of a new stream whose unlocking was done by the end of the old one.
abbrev unlocked : Running → Text → AgentChat → AgentChat
unlocked r cid chat = record (began cid chat) {
  sending = false;
  streaming_cid = none;
  abort_ref = none;
  running = filter (λ (q : Running). not (q.controller == r.controller)) (began cid chat).running;
}

module _ (parse : Text → Option Payload) where
  ended-unlocked :
      (chat : AgentChat) (c : ℕ) (cid : Text) (r : Running)
      → find_running c chat.running ≡ some r
      → (chat.next == c) ≡ false
      → r.active_cid ≡ some cid
      → on_event parse (ended c closed) (began cid chat) ≡ unlocked r cid chat
  unfolding on_event end_stream finish_stream same_cid
  ended-unlocked chat c cid r found fresh mine =
      rw (on_event, fresh, found, mine, text_eq_refl cid) refl

  -- The end of a stream that still runs when the next message of its conversation is sent, as its
  -- input is free from the event "done" on, is taken for the end of the new one: the input is free
  -- again although the new stream runs, and what this brings next is not shown.
  pub on_events-overtaken :
      (chat : AgentChat) (c : ℕ) (cid t : Text) (r : Running)
      → find_running c chat.running ≡ some r
      → c < chat.next
      → r.active_cid ≡ some cid
      → chat.conversation_id ≡ some cid
      → chat.sending ≡ false
      → nonempty (trim chat.input) ≡ true
      → ((on_events parse (sent ∷ ended c closed ∷ chunk chat.next t ∷ []) chat).messages
          ≡ chat.messages
            ++ (record { role = user; content = trim chat.input }
                ∷ record { role = agent; content = [] }
                ∷ []))
        × ((on_events parse (sent ∷ ended c closed ∷ chunk chat.next t ∷ []) chat).sending ≡ false)
  unfolding on_events same_cid
  on_events-overtaken chat c cid t r found fresh mine conv free typed =
      let mine' = find_running-controller c chat.running r found in
      let start : on_event parse sent chat ≡ began cid chat =
        unfold on_event in begin_message-began cid chat conv free typed in
      let unlock = ended-unlocked chat c cid r found (ground (arith, fresh)) mine in
      let stale =
        on_event-stale parse (part t)
          (record { controller = chat.next; active_cid = some cid; buffer = [] })
          (unlocked r cid chat) (ground (arith, fresh, mine')) refl in
      let whole =
        ap (λ x. seen (on_event parse (chunk chat.next t) (on_event parse (ended c closed) x)))
          start
        ∙ ap (λ x. seen (on_event parse (chunk chat.next t) x)) unlock
        ∙ stale in
      (ap (λ (x : Seen). x.messages) whole, ap (λ (x : Seen). x.sending) whole)
