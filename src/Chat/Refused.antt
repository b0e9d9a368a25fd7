-- ===== src/Chat/Refused.antt =====
-- sendMessage against a server that answers with a status that is no success.
use recif.Base.{
  ◌≡◌, refl, ap, ◌∙◌, true, false, Option, some, List, [], ◌∷◌, ◌++◌, if◌then◌else◌, ℕ,
}
use recif.Text.{Text, codes, trim}
use recif.Text.Decimal.{decimal}
use recif.Json.{nonempty}
use recif.Chat.{ChatMessage, ChatPage, user, agent, bare, is_agent, same_cid, update_last}
use recif.Chat.Events.{Event, Origin}
use recif.Chat.Send.{
  Request, error, Ending, Exchange, answered, is_ok, resolve_stream_error, Selected, origin_of,
  begin_send, request_of, show_failure, settle, attempt, conclude, send_message,
}
use recif.Chat.Outcome.{same_cid_refl}

-- A message that may be sent is sent.
pub send_message-sent :
    (parse_event : Text → Option Event) (server : Request → Exchange) (a : Selected)
    (active_kbs : List Text) (page : ChatPage)
    → nonempty (trim page.input) ≡ true
    → page.sending ≡ false
    → send_message parse_event server (some a) active_kbs page
      ≡ conclude parse_event (origin_of a page) (
          attempt parse_event
            (origin_of a page)
            (begin_send a page)
            (server (request_of a active_kbs page)))
unfolding send_message
send_message-sent parse_event server a active_kbs page full free = simp (full, free)

attempt-refused :
    (parse_event : Text → Option Event) (o : Origin) (page : ChatPage) (status : ℕ)
    (chunks : List Text) (ending : Ending)
    → is_ok status ≡ false
    → attempt parse_event o page (answered status chunks ending)
      ≡ (page, some (error (codes "HTTP " ++ decimal status)))
unfolding attempt
attempt-refused parse_event o page status chunks ending bad = rw bad refl

-- What an error writes into a message that is the last.
abbrev blame : Text → ChatMessage → ChatMessage
blame msg m = record m { content = if nonempty m.content then m.content else msg }

conclude-error :
    (parse_event : Text → Option Event) (o : Origin) (page : ChatPage) (msg : Text)
    → same_cid page.streaming_cid o.active_cid ≡ true
    → (conclude parse_event o (page, some (error msg))).messages
      ≡ update_last (blame (resolve_stream_error (error msg))) page.messages
unfolding conclude show_failure settle
conclude-error parse_event o page msg current = rw (current, current) refl

pub begin_send-current :
    (a : Selected) (page : ChatPage)
    → same_cid (begin_send a page).streaming_cid page.conversation_id ≡ true
unfolding begin_send
begin_send-current a page = same_cid_refl page.conversation_id

update_last-pair :
    (f : ChatMessage → ChatMessage) (ms : List ChatMessage) (u m : ChatMessage)
    → update_last f (ms ++ (u ∷ m ∷ [])) ≡ ms ++ (u ∷ (if is_agent m then f m else m) ∷ [])
unfolding update_last
update_last-pair f [] u m = refl
update_last-pair f (y ∷ []) u m = refl
update_last-pair f (y ∷ z ∷ ms) u m = ap (y ∷◌) (update_last-pair f (z ∷ ms) u m)

blame-begun :
    (msg : Text) (a : Selected) (page : ChatPage)
    → update_last (blame msg) (begin_send a page).messages
      ≡ page.messages ++ (bare user (trim page.input) ∷ bare agent msg ∷ [])
unfolding begin_send
blame-begun msg a page =
    update_last-pair (blame msg) page.messages (bare user (trim page.input)) (bare agent [])

-- A server that answers with another status than success leaves, behind the messages that were
-- there, the user's message and one bubble of the agent with the explanation of the status.
pub send_message-refused :
    (parse_event : Text → Option Event) (server : Request → Exchange) (a : Selected)
    (active_kbs : List Text) (page : ChatPage) (status : ℕ) (chunks : List Text) (ending : Ending)
    → nonempty (trim page.input) ≡ true
    → page.sending ≡ false
    → server (request_of a active_kbs page) ≡ answered status chunks ending
    → is_ok status ≡ false
    → (send_message parse_event server (some a) active_kbs page).messages
      ≡ page.messages
        ++ (bare user (trim page.input)
            ∷ bare agent (resolve_stream_error (error (codes "HTTP " ++ decimal status)))
            ∷ [])
send_message-refused parse_event server a active_kbs page status chunks ending full free answer
      bad =
    rw
      (
        send_message-sent parse_event server a active_kbs page full free,
        answer,
        attempt-refused parse_event (origin_of a page) (begin_send a page) status chunks ending bad,
      )
      (conclude-error parse_event (origin_of a page) (begin_send a page) _
          (begin_send-current a page)
        ∙ blame-begun _ a page)
