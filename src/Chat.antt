-- ===== src/Chat.antt =====
-- The chat page (dashboard/src/app/(dashboard)/chat/page.tsx): its messages, its state, and what a
-- conversation that is loaded is turned into.
pub mod Events
pub mod Stream
pub mod Framing
pub mod Lines
pub mod Send
pub mod Frame
pub mod Outcome
pub mod Refused
pub mod Stale
pub mod Conversations
pub mod Compare
pub mod Lock
pub mod Poll
pub mod Tokens
pub mod Restore
pub mod Streamed
mod Tests
mod PageTests
pub mod Rule
pub mod Views
pub mod Transcript
use recif.Base.{
  ℕ, ◌+◌, Bool, true, false, not, ◌&&◌, ◌||◌, Option, none, some, List, [], ◌∷◌, ◌++◌, map,
  map_last, if◌then◌else◌,
}
use recif.Text.{Text, codes, text_eq, includes}
use recif.Json.{Json, Fields, nonempty}
use recif.Thinking.{think_open, parse_thinking}

pub data Role : Type 0 where
  user agent : Role

-- RAGSource; the score is a float, and stands as its text.
pub record Source : Type 0 where
  pub filename : Text
  pub score : Text
  pub chunk_index : ℕ
  pub content_preview : Text

-- The payload of a confirm block.
pub record Confirm : Type 0 where
  pub id : Text
  pub tool : Text
  pub args : Fields
  pub message : Text

-- AgentBlock of dashboard/src/components/agui/agent-block.tsx: one constructor for each `type`.
pub data Block : Type 0 where
  text : Text → Block
  component : Text → Json → Block
  confirm : Confirm → Block

pub data Feedback : Type 0 where
  positive negative : Feedback

pub record ChatMessage : Type 0 where
  pub role : Role
  pub content : Text
  pub thinking : Option Text
  pub blocks : Option (List Block)
  pub sources : Option (List Source)
  pub trace_id : Option Text
  pub feedback : Option Feedback

-- `{ role, content }`
abbrev pub bare : Role → Text → ChatMessage
bare role content = record {
  role = role;
  content = content;
  thinking = none;
  blocks = none;
  sources = none;
  trace_id = none;
  feedback = none;
}

-- A call of watchGeneration.
pub record PendingGeneration : Type 0 where
  pub agent_slug : Text
  pub agent_name : Text
  pub conversation_id : Text

-- The state of the page that sending and streaming touch. `in_flight` says whether abortRef holds a
-- controller, `polling` whether pollRef holds an interval, and `watched` lists the calls of watchGeneration, the latest last.
pub record ChatPage : Type 0 where
  pub messages : List ChatMessage
  pub input : Text
  pub sending : Bool
  pub conversation_id : Option Text
  pub streaming_cid : Option Text
  pub in_flight : Bool
  pub suggestions : List Text
  pub suggestions_visible : Bool
  pub polling : Bool
  pub watched : List PendingGeneration

abbrev pub is_agent : ChatMessage → Bool
is_agent m = elim m.role [ user ↦ false | agent ↦ true ]

-- `a === b` on a string or null
unfoldable pub same_cid : Option Text → Option Text → Bool
same_cid none none = true
same_cid (some a) (some b) = text_eq a b
same_cid _ _ = false

-- Whether an optional text is truthy.
abbrev pub is_set : Option Text → Bool
is_set none = false
is_set (some t) = nonempty t

-- The updater that rewrites the last message, if that is the agent's.
unfoldable pub update_last : (ChatMessage → ChatMessage) → List ChatMessage → List ChatMessage
update_last f = map_last (λ m. if is_agent m then f m else m)

-- What the server stores of a message.
pub record Stored : Type 0 where
  pub role : Text
  pub content : Text

-- parseMessages, one message
unfoldable pub parse_message : Stored → ChatMessage
parse_message m =
    let parsed = parse_thinking m.content in
    if text_eq m.role (codes "user")
    then bare user m.content
    else if includes think_open m.content
    then record (bare agent parsed.content) { thinking = some parsed.thinking }
    else bare agent m.content

-- parseMessages
unfoldable pub parse_messages : List Stored → List ChatMessage
parse_messages raw = map parse_message raw
