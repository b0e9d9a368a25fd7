-- ===== src/Chat/Outcome.antt =====
-- What sendMessage leaves behind, whatever the server does.
use recif.Base.{
  ◌≡◌, refl, ap, ◌∙◌, true, false, Option, none, some, List, [], ◌∷◌, ◌++◌, arith, if◌then◌else◌,
}
use mathlib.Core.List.{map-append}
use recif.Text.{Text, trim}
use recif.Json.{nonempty}
use recif.Chat.{ChatMessage, ChatPage, user, agent, bare, same_cid, update_last}
use recif.Chat.Events.{Event, Stream, Origin}
use recif.Chat.Stream.{finalize}
use recif.Chat.Frame.{Frame, frame, feed_all-frame, finalize-frame}
use recif.Chat.Transcript.{
  user_view, transcript, update_last-transcript, feed_all-transcript, finalize-transcript,
}
use recif.Chat.Send.{
  Request, Failure, aborted, error, other, finished, broken, Exchange, unreachable, answered,
  resolve_stream_error, Selected, origin_of, begin_send, request_of, show_failure, settle,
  read_reply, attempt, conclude, send_message,
}
use recif.Text.Equality.{text_eq_refl}

pub same_cid_refl : (c : Option Text) → same_cid c c ≡ true
unfolding same_cid
same_cid_refl none = refl
same_cid_refl (some t) = text_eq_refl t

-- What holds of the page from the moment that the request is made.
pub record Began (o : Origin) (before : List (Option ChatMessage)) (page : ChatPage) : Type 0 where
  pub current : page.streaming_cid ≡ o.active_cid
  pub emptied : page.input ≡ []
  pub kept : transcript page.messages ≡ before

-- It carries over to a page with the same frame and transcript.
Began-of :
    {o : Origin} {before : List (Option ChatMessage)} (page page' : ChatPage)
    → frame page' ≡ frame page
    → transcript page'.messages ≡ transcript page.messages
    → Began o before page
    → Began o before page'
Began-of page page' f t b = record {
  current = ap (λ (g : Frame). g.streaming_cid) f ∙ b.current;
  emptied = ap (λ (g : Frame). g.input) f ∙ b.emptied;
  kept = t ∙ b.kept;
}

module _ (parse_event : Text → Option Event) (o : Origin) (before : List (Option ChatMessage)) where
  read_reply-Began :
      (page : ChatPage) (chunks : List Text)
      → Began o before page
      → Began o before (read_reply parse_event o page chunks).page
  unfolding read_reply
  read_reply-Began page chunks b =
      Began-of page _ (feed_all-frame parse_event o chunks _)
        (feed_all-transcript parse_event o chunks _).0 b

  finalize-Began : (s : Stream) → Began o before s.page → Began o before (finalize s).page
  finalize-Began s b = Began-of s.page _ (finalize-frame s) (finalize-transcript s) b

  attempt-Began :
      (page : ChatPage) (x : Exchange)
      → Began o before page
      → Began o before (attempt parse_event o page x).0
  unfolding attempt
  attempt-Began page (unreachable f) b = b
  attempt-Began page (answered status chunks finished) b = ground (
    arith,
    finalize-Began (read_reply parse_event o page chunks) (read_reply-Began page chunks b),
  )
  attempt-Began page (answered status chunks (broken f)) b =
      ground (arith, read_reply-Began page chunks b)

  show_message-Began :
      (msg : Text) (page : ChatPage)
      → Began o before page
      → Began o before (record page {
        messages =
            update_last
              (λ m. record m { content = if nonempty m.content then m.content else msg })
              page.messages;
      })
  show_message-Began msg page b =
      Began-of page _ refl (update_last-transcript _ page.messages (λ m. refl)) b

  show_failure-Began :
      (f : Failure) (page : ChatPage) → Began o before page → Began o before (show_failure o f page)
  unfolding show_failure
  show_failure-Began aborted page b = b
  show_failure-Began (error msg) page b =
      rw (ap (λ c. same_cid c o.active_cid) b.current ∙ same_cid_refl o.active_cid)
        (show_message-Began (resolve_stream_error (error msg)) page b)
  show_failure-Began other page b =
      rw (ap (λ c. same_cid c o.active_cid) b.current ∙ same_cid_refl o.active_cid)
        (show_message-Began (resolve_stream_error other) page b)

-- The page behind the `finally` block: nothing is locked or in flight, the input is empty, and the
-- transcript is `after`.
pub record Unlocked (after : List (Option ChatMessage)) (page : ChatPage) : Type 0 where
  pub sending : page.sending ≡ false
  pub in_flight : page.in_flight ≡ false
  pub streaming_cid : page.streaming_cid ≡ none
  pub input : page.input ≡ []
  pub kept : transcript page.messages ≡ after

settle-Unlocked :
    (o : Origin) (before : List (Option ChatMessage)) (page : ChatPage)
    → Began o before page
    → Unlocked before (settle o page)
unfolding settle
settle-Unlocked o before page b =
    rw (ap (λ c. same_cid c o.active_cid) b.current ∙ same_cid_refl o.active_cid) (record {
      sending = refl;
      in_flight = refl;
      streaming_cid = refl;
      input = b.emptied;
      kept = b.kept;
    })

conclude-Unlocked :
    (parse_event : Text → Option Event) (o : Origin) (before : List (Option ChatMessage))
    (page : ChatPage) (x : Exchange)
    → Began o before page
    → Unlocked before (conclude parse_event o (attempt parse_event o page x))
unfolding conclude
conclude-Unlocked parse_event o before page x b =
    by_failure (attempt parse_event o page x) (attempt-Began parse_event o before page x b)
  where
    by_failure :
        (r : ChatPage × Option Failure)
        → Began o before r.0
        → Unlocked before (conclude parse_event o r)
    by_failure (p, none) h = settle-Unlocked o before p h
    by_failure (p, some f) h =
        settle-Unlocked o before _ (show_failure-Began parse_event o before f p h)

-- The transcript with the message that is sent and the agent's answer to it.
abbrev pub with_turn : ChatPage → List (Option ChatMessage)
with_turn page = transcript page.messages ++ (some (bare user (trim page.input)) ∷ none ∷ [])

begin_send-Began :
    (a : Selected) (page : ChatPage) → Began (origin_of a page) (with_turn page) (begin_send a page)
unfolding begin_send
begin_send-Began a page = record {
  current = refl;
  emptied = refl;
  kept = map-append user_view page.messages (bare user (trim page.input) ∷ bare agent [] ∷ []);
}

-- A message that may be sent always ends with the page unlocked, whatever the server does: it may
-- answer with any status and any text cut anyhow, be cut off, be aborted or not be reached. The
-- conversation then has the trimmed message and one answer more, and no earlier message of the user
-- has changed.
pub send_message-Unlocked :
    (parse_event : Text → Option Event) (server : Request → Exchange) (a : Selected)
    (active_kbs : List Text) (page : ChatPage)
    → nonempty (trim page.input) ≡ true
    → page.sending ≡ false
    → Unlocked (with_turn page) (send_message parse_event server (some a) active_kbs page)
unfolding send_message begin_send request_of
send_message-Unlocked parse_event server a active_kbs page full free =
    rw (full, free)
      (conclude-Unlocked parse_event (origin_of a page) (with_turn page) (begin_send a page)
        (server (request_of a active_kbs page)) (begin_send-Began a page))
