-- ===== src/Chat/PageTests.antt =====
-- Runs of the chat page's conversations.
use recif.Base.{◌≡◌, refl, true, false, some, List, [], ◌∷◌, ◌++◌, arith}
use recif.Text.{codes, text_eq}
use recif.Chat.{ChatPage, Stored, parse_messages, same_cid}
use recif.Chat.Events.{Stream, is_current, handle_event}
use recif.Chat.Stale.{shown, handle_event-stale}
use recif.Chat.Tokens.{token_event}
use recif.Chat.Send.{watch_call, send_message}
use recif.Chat.Conversations.{lost, got, Status, load_conversation, poll_tick}
use recif.Chat.Restore.{restored, load_conversation-got}
use recif.Chat.Lock.{IsGuarded, sent, loaded, polled, Reaches, still, next, Reaches-IsGuarded}
use recif.Chat.Poll.{Tick, poll_ticks, poll_ticks-ended}
use recif.Chat.Tests.{as_token, helper, empty_page, small_origin, small_stream, streaming_server}

-- A conversation whose answer is not there yet.
abbrev waiting : List Stored
waiting = record { role = codes "user"; content = codes "hi" } ∷ []

load_conversation-got_example :
    (load_conversation helper (codes "c1") (got waiting) empty_page) ≡ record empty_page {
      messages = restored waiting;
      sending = true;
      polling = true;
      watched = watch_call helper (codes "c1") ∷ [];
    }
unfolding text_eq
load_conversation-got_example = load_conversation-got helper (codes "c1") waiting empty_page

abbrev over_status : Status
over_status = record { generating = false; partial = [] }

abbrev loaded_page : ChatPage
loaded_page = load_conversation helper (codes "c1") (got waiting) empty_page

abbrev locked_page : ChatPage
locked_page = record empty_page { sending = true; polling = true }

-- A status that is lost, a part of the answer, the answer, and a tick that never comes.
abbrev first_ticks : List Tick
first_ticks = (lost, lost) ∷ (got (record { generating = true; partial = codes "h" }), lost) ∷ []

abbrev answered : List Stored
answered = waiting ++ record { role = codes "assistant"; content = codes "hello" } ∷ []

poll_ticks-ended_example :
    poll_ticks (first_ticks ++ (got over_status, got answered) ∷ (lost, lost) ∷ []) locked_page
    ≡ record locked_page { messages = parse_messages answered; sending = false; polling = false }
poll_ticks-ended_example =
    poll_ticks-ended first_ticks over_status (got answered) ((lost, lost) ∷ []) locked_page refl
      (refl, (refl, tt)) refl

-- A message, a conversation that is loaded, and a tick.
three_steps : Reaches as_token streaming_server empty_page (
    poll_tick (got over_status) (got waiting) (
      load_conversation helper
        (codes "c1")
        (got waiting)
        (send_message as_token streaming_server (some helper) [] empty_page)))
three_steps =
    next
      (next (next (still empty_page) (sent helper [] empty_page))
        (loaded helper (codes "c1") (got waiting) _))
      (polled (got over_status) (got waiting) _ tt)

unlocked_at_first : IsGuarded empty_page
unlocked_at_first = ground arith

Reaches-IsGuarded_example : IsGuarded (
    poll_tick (got over_status) (got waiting) (
      load_conversation helper
        (codes "c1")
        (got waiting)
        (send_message as_token streaming_server (some helper) [] empty_page)))
Reaches-IsGuarded_example =
    Reaches-IsGuarded as_token streaming_server three_steps unlocked_at_first

-- The stream of a conversation that has been left.
abbrev stale_stream : Stream
stale_stream = record small_stream {
  page = record small_stream.page { streaming_cid = some (codes "c2") };
}

stale_stream-stale : is_current small_origin stale_stream ≡ false
unfolding is_current same_cid
stale_stream-stale = refl

handle_event-stale_example :
    shown (handle_event small_origin (token_event (codes "x")) stale_stream) ≡ shown stale_stream
handle_event-stale_example =
    handle_event-stale small_origin (token_event (codes "x")) stale_stream stale_stream-stale refl

small_stream-current : is_current small_origin small_stream ≡ true
unfolding is_current same_cid
small_stream-current = refl
