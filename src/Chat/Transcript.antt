-- ===== src/Chat/Transcript.antt =====
-- What a stream leaves alone: the user's messages, and which messages are the agent's.
use recif.Base.{
  ◌≡◌, refl, ◌∙◌, Bool-cases, Option, none, some, Option-cases, inl, inr, List, [], ◌∷◌, map,
  map-map_last, arith, if◌then◌else◌, not, ◌&&◌,
}
use recif.Text.{Text}
use recif.Json.{nonempty}
use recif.Chat.{ChatMessage, is_agent, update_last}
use recif.Chat.Events.{Event, Stream, Origin, attach_trace, on_trace, handle_event}
use recif.Chat.Stream.{Reader, feed_all, finalize}
use recif.Chat.Rule.{feed_all-rule}
use recif.Chat.Views.{KeepsAgent, handle_event-view, finalize-view}

-- A user's message whole, and of the agent's only that it is one.
abbrev pub user_view : ChatMessage → Option ChatMessage
user_view m = if is_agent m then none else some m

abbrev pub transcript : List ChatMessage → List (Option ChatMessage)
transcript = map user_view

pub update_last-transcript :
    (f : ChatMessage → ChatMessage) (ms : List ChatMessage)
    → KeepsAgent f
    → transcript (update_last f ms) ≡ transcript ms
unfolding update_last
update_last-transcript f ms k = map-map_last user_view (λ m. if is_agent m then f m else m) kept ms
  where
    kept : (m : ChatMessage) → user_view (if is_agent m then f m else m) ≡ user_view m
    kept m = ground (arith, k m)

attach_trace-transcript :
    (id : Text) (ms ms' : List ChatMessage)
    → attach_trace id ms ≡ some ms'
    → transcript ms' ≡ transcript ms
unfolding attach_trace
attach_trace-transcript id [] ms' h = cc
attach_trace-transcript id (m ∷ ms) ms' h = elim (Option-cases (attach_trace id ms)) [
  | inl missed ↦ ground arith
  | inr (later, found) ↦ ground (arith, attach_trace-transcript id ms later found)
]

on_trace-transcript :
    (o : Origin) (e : Event) (s : Stream)
    → transcript (on_trace o e s).page.messages ≡ transcript s.page.messages
unfolding on_trace
on_trace-transcript o e s = elim (Bool-cases (nonempty e.trace_id && not e.done)) [
  | inl traced ↦ elim (Option-cases (attach_trace e.trace_id s.page.messages)) [
    | inl missed ↦ rw (traced, missed)
    | inr (later, found) ↦
        rw (traced, found) (attach_trace-transcript e.trace_id s.page.messages later found)
  ]
  | inr other ↦ rw other
]

-- No event adds, drops or reorders a message, turns a user's message into the agent's or the other
-- way round, or changes anything of a user's message.
pub handle_event-transcript :
    (o : Origin) (e : Event) (s : Stream)
    → transcript (handle_event o e s).page.messages ≡ transcript s.page.messages
handle_event-transcript o e s =
    handle_event-view transcript update_last-transcript o e s (on_trace-transcript o e)

pub finalize-transcript :
    (s : Stream) → transcript (finalize s).page.messages ≡ transcript s.page.messages
finalize-transcript s = finalize-view transcript update_last-transcript s

-- A whole reply, however it is cut into chunks, and the block that is closed behind it, add, drop and
-- reorder no message, turn no user's message into the agent's or the other way round, and change
-- nothing of a user's message.
pub feed_all-transcript :
    (parse_event : Text → Option Event) (o : Origin) (chunks : List Text) (r : Reader)
    → (transcript (feed_all parse_event o r chunks).stream.page.messages
        ≡ transcript r.stream.page.messages)
      × (transcript (finalize (feed_all parse_event o r chunks).stream).page.messages
          ≡ transcript r.stream.page.messages)
feed_all-transcript parse_event o chunks r =
    let fed =
      feed_all-rule parse_event o
        (λ s. transcript s.page.messages ≡ transcript r.stream.page.messages)
        (λ e s h. handle_event-transcript o e s ∙ h) chunks r refl in
    (fed, finalize-transcript _ ∙ fed)
