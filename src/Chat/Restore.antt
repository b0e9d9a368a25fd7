-- ===== src/Chat/Restore.antt =====
-- What loadConversation restores.
use recif.Base.{
  ◌≡◌, refl, ap, ◌∙◌, Bool, true, false, none, some, List, [], ◌∷◌, ◌++◌, arith, if◌then◌else◌,
  Bool-cases, inl, inr,
}
use recif.Text.{Text, text_eq, codes, includes}
use recif.Thinking.{think_open}
use recif.Chat.{ChatMessage, ChatPage, Stored, agent, bare, is_agent, parse_message, parse_messages}
use recif.Chat.Send.{Selected, watch_call}
use recif.Chat.Conversations.{
  got, leave, stop_polling, awaits_answer, show_loaded, load_conversation,
}

-- Whether the last of the stored messages is the user's.
abbrev pub ends_with_user : List Stored → Bool
ends_with_user [] = false
ends_with_user (m ∷ []) = text_eq m.role (codes "user")
ends_with_user (_ ∷ m ∷ ms) = ends_with_user (m ∷ ms)

-- What the messages become on the page: the stored ones, and an empty answer where one is awaited.
abbrev pub restored : List Stored → List ChatMessage
restored raw =
    if ends_with_user raw then parse_messages raw ++ bare agent [] ∷ [] else parse_messages raw

parse_message-is_agent :
    (m : Stored)
    → is_agent (parse_message m) ≡ (if text_eq m.role (codes "user") then false else true)
unfolding parse_message
parse_message-is_agent m = elim (Bool-cases (text_eq m.role (codes "user"))) [
  | inl mine ↦ rw mine
  | inr other ↦
      rw other (elim (Bool-cases (includes think_open m.content)) [ inl a ↦ rw a | inr b ↦ rw b ])
]

awaits_answer-parse_messages :
    (raw : List Stored) → awaits_answer (parse_messages raw) ≡ ends_with_user raw
unfolding awaits_answer parse_messages
awaits_answer-parse_messages [] = refl
awaits_answer-parse_messages (m ∷ []) =
    ap (λ b. if b then false else true) (parse_message-is_agent m) ∙ ground arith
awaits_answer-parse_messages (m ∷ n ∷ raw) = awaits_answer-parse_messages (n ∷ raw)

-- A conversation that is read is shown with its own messages and nothing else. If the last one is
-- the user's, an empty answer stands behind it, the page is locked, the poll runs and one more watch
-- is registered, for this conversation; otherwise the page is free and there is no poll.
pub load_conversation-got :
    (a : Selected) (cid : Text) (raw : List Stored) (page : ChatPage)
    → load_conversation a cid (got raw) page ≡ record page {
      messages = restored raw;
      sending = ends_with_user raw;
      conversation_id = some cid;
      streaming_cid = none;
      in_flight = false;
      suggestions = [];
      suggestions_visible = true;
      polling = ends_with_user raw;
      watched = if ends_with_user raw then page.watched ++ watch_call a cid ∷ [] else page.watched;
    }
unfolding load_conversation leave stop_polling show_loaded
load_conversation-got a cid raw page =
    rw (awaits_answer-parse_messages raw)
      (elim (Bool-cases (ends_with_user raw)) [ inl mine ↦ rw mine | inr other ↦ rw other ])
