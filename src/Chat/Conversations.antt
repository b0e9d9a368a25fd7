-- ===== src/Chat/Conversations.antt =====
-- The conversations of the chat page: selectAgent, loadConversation with its poll, newChat and
-- deleteConversation. What fetch gives is a parameter of each; the stored suggestions and the
-- reload of the conversation list are left out.
use recif.Base.{Bool, true, false, none, some, List, [], ◌∷◌, ◌++◌, if◌then◌else◌}
use recif.Text.{Text}
use recif.Json.{nonempty}
use recif.Thinking.{parse_thinking}
use recif.Chat.{
  ChatMessage, ChatPage, Stored, agent, bare, is_agent, same_cid, update_last, parse_messages,
}
use recif.Chat.Send.{Selected, watch_call}

-- What a request for JSON gives: a rejection of fetch or of `json()`, a status that is no success,
-- or the value.
pub data Answer (A : Type 0) : Type 0 where
  lost : Answer A
  refused : Answer A
  got : A → Answer A

-- `/conversations/CID/status`; an empty `partial` stands for a missing one too.
pub record Status : Type 0 where
  pub generating : Bool
  pub partial : Text

unfoldable pub stop_polling : ChatPage → ChatPage
stop_polling page = record page { polling = false }

-- The lines that selectAgent, loadConversation and newChat begin with: the stream is aborted, the
-- poll stopped, the lock taken off and the chips cleared.
unfoldable pub leave : ChatPage → ChatPage
leave page = record (stop_polling page) {
  in_flight = false;
  sending = false;
  streaming_cid = none;
  suggestions = [];
  suggestions_visible = true;
}

-- selectAgent, on the page alone, and newChat.
unfoldable pub select_agent : ChatPage → ChatPage
select_agent page = record (leave page) { conversation_id = none; messages = [] }

unfoldable pub new_chat : ChatPage → ChatPage
new_chat page = record (leave page) { conversation_id = none; messages = [] }

-- `loaded.length > 0 && loaded[loaded.length - 1].role === "user"`
unfoldable pub awaits_answer : List ChatMessage → Bool
awaits_answer [] = false
awaits_answer (m ∷ []) = if is_agent m then false else true
awaits_answer (_ ∷ m ∷ ms) = awaits_answer (m ∷ ms)

-- The messages of a conversation that is loaded, with the poll if the last one awaits its answer.
unfoldable pub show_loaded : Selected → Text → List ChatMessage → ChatPage → ChatPage
show_loaded a cid loaded page =
    if awaits_answer loaded
    then record page {
      messages = loaded ++ bare agent [] ∷ [];
      sending = true;
      watched = page.watched ++ watch_call a cid ∷ [];
      polling = true;
    }
    else record page { messages = loaded }

-- loadConversation
unfoldable pub load_conversation : Selected → Text → Answer (List Stored) → ChatPage → ChatPage
load_conversation a cid answer page =
    let cleared = record (leave page) { conversation_id = some cid } in
    elim answer [
      | lost ↦ record cleared { messages = [] }
      | refused ↦ record cleared { messages = [] }
      | got raw ↦ show_loaded a cid (parse_messages raw) cleared
    ]

-- The end of a poll: the stored answer is asked for. If that request is lost, the `catch` comes
-- before the lock is taken off.
unfoldable pub poll_done : Answer (List Stored) → ChatPage → ChatPage
poll_done lost page = stop_polling page
poll_done refused page = record (stop_polling page) { sending = false }
poll_done (got raw) page = record (stop_polling page) {
  messages = parse_messages raw;
  sending = false;
}

-- One tick of the interval. `final` is what the stored conversation is answered with, if it is asked
-- for.
unfoldable pub poll_tick : Answer Status → Answer (List Stored) → ChatPage → ChatPage
poll_tick lost final page = page
poll_tick refused final page = page
poll_tick (got status) final page =
    let parsed = parse_thinking status.partial in
    if status.generating
    then if nonempty status.partial
      then record page {
        messages =
            update_last
              (λ m. record m { content = parsed.content; thinking = some parsed.thinking })
              page.messages;
      }
      else page
    else poll_done final page

-- deleteConversation. The request counts as done whatever its status is.
unfoldable pub delete_conversation : Text → Answer Unit → ChatPage → ChatPage
delete_conversation cid lost page = page
delete_conversation cid _ page =
    if same_cid page.conversation_id (some cid)
    then record page { conversation_id = none; messages = [] }
    else page
