-- ===== src/AgentPage/Chat.antt =====
-- The chat tab of dashboard/src/app/(dashboard)/agents/[id]/page.tsx: sendMessage with the streams
-- that run, and loadConversation. What happens on the page is a sequence of events, so that a stream
-- may still run while another is started or another conversation is loaded.
pub mod Stale
pub mod Tokens
pub mod Answered
mod Tests
use recif.Base.{
  ℕ, ◌+◌, ◌==◌, Bool, true, false, not, ◌&&◌, ◌||◌, Option, none, some, List, [], ◌∷◌, ◌++◌, map,
  map_last, filter, if◌then◌else◌,
}
use recif.Text.{Text, codes, strip_prefix, trim}
use recif.Json.{nonempty}
use recif.Chat.{Role, user, agent, same_cid}
use recif.Chat.Send.{Failure, aborted}
use recif.Chat.Lines.{read_lines}

pub record ChatEntry : Type 0 where
  pub role : Role
  pub content : Text

-- What a stream's closure holds: the conversation that it began in, and the text that waits for a
-- line feed. Its number stands for its controller.
pub record Running : Type 0 where
  pub controller : ℕ
  pub active_cid : Option Text
  pub buffer : Text

-- `stored` is what localStorage has, `abort_ref` the controller of abortRef, `next` a fresh one.
pub record AgentChat : Type 0 where
  pub messages : List ChatEntry
  pub input : Text
  pub sending : Bool
  pub conversation_id : Option Text
  pub stored : Option Text
  pub streaming_cid : Option Text
  pub abort_ref : Option ℕ
  pub running : List Running
  pub next : ℕ

-- The payload of an event; an empty text and `false` stand for fields that are missing.
pub record Payload : Type 0 where
  pub token : Text
  pub done : Bool
  pub conversation_id : Text

-- The updaters that rewrite the last message, if that is the agent's.
unfoldable pub append_token : Text → ChatEntry → ChatEntry
append_token token m = elim m.role [ user ↦ m | agent ↦ record m { content = m.content ++ token } ]

unfoldable pub show_error : ChatEntry → ChatEntry
show_error m = elim m.role [
  | user ↦ m
  | agent ↦
      if nonempty m.content
      then m
      else record m { content = codes "Error: Could not reach the agent." }
]

abbrev pub is_active : Option Text → AgentChat → Bool
is_active cid chat = same_cid chat.streaming_cid cid

unfoldable pub take_token : Option Text → Payload → AgentChat → AgentChat
take_token cid p chat =
    if nonempty p.token && is_active cid chat
    then record chat { messages = map_last (append_token p.token) chat.messages }
    else chat

unfoldable pub take_done : Option Text → Payload → AgentChat → AgentChat
take_done cid p chat =
    if p.done && is_active cid chat then record chat { sending = false } else chat

unfoldable pub take_conversation : Option Text → Payload → AgentChat → AgentChat
take_conversation cid p chat =
    if nonempty p.conversation_id && is_active cid chat
    then record chat { conversation_id = some p.conversation_id; stored = some p.conversation_id }
    else chat

-- `abortRef.current.abort()`: the stream rejects, and neither its `catch` nor its `finally` finds
-- anything to change by then.
unfoldable pub abort_stream : AgentChat → AgentChat
abort_stream chat = elim chat.abort_ref [
  | none ↦ chat
  | some c ↦ record chat {
    running = filter (λ (r : Running). not (r.controller == c)) chat.running;
    abort_ref = none;
  }
]

-- loadConversation up to its request.
unfoldable pub begin_load : Text → AgentChat → AgentChat
begin_load cid chat = record (abort_stream chat) {
  sending = false;
  streaming_cid = none;
  conversation_id = some cid;
  stored = some cid;
}

-- The button for a new conversation.
unfoldable pub new_conversation : AgentChat → AgentChat
new_conversation chat = record (abort_stream chat) {
  sending = false;
  streaming_cid = none;
  messages = [];
  conversation_id = none;
  stored = none;
}

-- The answer to loadConversation: the stored messages, each with whether its role is "user", or `none` for an error.
unfoldable pub end_load : Option (List (Bool × Text)) → AgentChat → AgentChat
end_load none chat = record chat { messages = [] }
end_load (some loaded) chat = record chat {
  messages = map (λ m. record { role = if m.0 then user else agent; content = m.1 }) loaded;
}

-- sendMessage up to its request, with the guard.
unfoldable pub begin_message : AgentChat → AgentChat
begin_message chat =
    if not (nonempty (trim chat.input)) || chat.sending then chat else record chat {
      input = [];
      messages =
          chat.messages
          ++ (record { role = user; content = trim chat.input }
              ∷ record { role = agent; content = [] }
              ∷ []);
      sending = true;
      streaming_cid = chat.conversation_id;
      abort_ref = some chat.next;
      running =
          record { controller = chat.next; active_cid = chat.conversation_id; buffer = [] }
          ∷ chat.running;
      next = chat.next + 1;
    }

-- The `catch` block.
unfoldable pub catch_failure : Option Text → Failure → AgentChat → AgentChat
catch_failure cid aborted chat = chat
catch_failure cid _ chat =
    if is_active cid chat
    then record chat { messages = map_last show_error chat.messages }
    else chat

-- The `finally` block, without the reload of the list of conversations.
unfoldable pub finish_stream : Option Text → AgentChat → AgentChat
finish_stream cid chat =
    if is_active cid chat
    then record chat { sending = false; streaming_cid = none; abort_ref = none }
    else record chat { abort_ref = none }

-- A stream ends by `done`, or by what is thrown.
pub data StreamEnd : Type 0 where
  closed : StreamEnd
  failed : Failure → StreamEnd

unfoldable pub end_stream : Running → StreamEnd → AgentChat → AgentChat
end_stream r end chat =
    let left = record chat {
      running = filter (λ (q : Running). not (q.controller == r.controller)) chat.running;
    } in
    elim end [
      | closed ↦ finish_stream r.active_cid left
      | failed f ↦ finish_stream r.active_cid (catch_failure r.active_cid f left)
    ]

pub data ChatEvent : Type 0 where
  typed : Text → ChatEvent
  sent : ChatEvent
  anew : ChatEvent
  load : Text → ChatEvent
  loaded : Option (List (Bool × Text)) → ChatEvent
  chunk : ℕ → Text → ChatEvent
  ended : ℕ → StreamEnd → ChatEvent

abbrev pub find_running : ℕ → List Running → Option Running
find_running c [] = none
find_running c (r ∷ rs) = if r.controller == c then some r else find_running c rs

-- The text that waits, in the closure of one stream.
unfoldable pub set_buffer : ℕ → Text → List Running → List Running
set_buffer c b [] = []
set_buffer c b (r ∷ rs) =
    if r.controller == c then record r { buffer = b } ∷ rs else r ∷ set_buffer c b rs

-- `parse` is JSON.parse on a payload, `none` where it throws.
module _ (parse : Text → Option Payload) where
  unfoldable pub take_line : Option Text → AgentChat → Text → AgentChat
  take_line cid chat line = elim (strip_prefix (codes "data: ") line) [
    | none ↦ chat
    | some payload ↦ elim (parse payload) [
      | none ↦ chat
      | some p ↦ take_conversation cid p (take_done cid p (take_token cid p chat))
    ]
  ]

  -- A chunk is read by its stream.
  unfoldable pub read_part : Running → Text → AgentChat → AgentChat
  read_part r t chat =
      let (rest, read) = read_lines (take_line r.active_cid) (r.buffer, chat) t in
      record read { running = set_buffer r.controller rest read.running }

  unfoldable pub on_event : ChatEvent → AgentChat → AgentChat
  on_event (typed t) chat = record chat { input = t }
  on_event sent chat = begin_message chat
  on_event anew chat = new_conversation chat
  on_event (load cid) chat = begin_load cid chat
  on_event (loaded answer) chat = end_load answer chat
  on_event (chunk c t) chat = elim (find_running c chat.running) [
    | none ↦ chat
    | some r ↦ read_part r t chat
  ]
  on_event (ended c end) chat = elim (find_running c chat.running) [
    | none ↦ chat
    | some r ↦ end_stream r end chat
  ]

  unfoldable pub on_events : List ChatEvent → AgentChat → AgentChat
  on_events [] chat = chat
  on_events (e ∷ es) chat = on_events es (on_event e chat)
