-- ===== src/Chat/Streamed.antt =====
-- sendMessage against a server that streams its answer as tokens, from the press of the key to the
-- bubble.
use recif.Base.{
  ◌≡◌, refl, sym, ap, ◌∙◌, ℕ, true, false, Option, none, some, List, [], ◌∷◌, ◌++◌, foldl, All,
  arith, append_assoc,
}
use recif.Text.{Text, trim}
use recif.Text.Regions.{Free}
use recif.Json.{nonempty}
use recif.Thinking.{parse_thinking}
use recif.Chat.{ChatMessage, ChatPage, user, agent, bare, is_set}
use recif.Chat.Events.{Event, Stream, Origin, is_current, on_token, handle_event}
use recif.Chat.Stream.{Reader, finalize}
use recif.Chat.Framing.{concat, frames, on_payload, feed_all-frames}
use recif.Chat.Tokens.{token_event, handle_event-token_event, stream_tokens, stream_tokens-messages}
use recif.Chat.Refused.{send_message-sent, begin_send-current}
use recif.Chat.Send.{
  Request, finished, Exchange, answered, is_ok, Selected, origin_of, begin_send, request_of, settle,
  read_reply, attempt, conclude, send_message,
}

-- The payloads that are read as tokens.
abbrev pub Carry : (Text → Option Event) → List Text → List Text → Type 0
Carry parse_event [] [] = Unit
Carry parse_event (p ∷ ps) (t ∷ ts) =
    (parse_event p ≡ some (token_event t)) × Carry parse_event ps ts
Carry parse_event _ _ = ⊥

-- What the stream starts from.
abbrev start : Origin → ChatPage → Stream
start o page = record {
  page = page;
  raw_accum = [];
  watch_registered = is_set o.active_cid;
  stream_blocks = [];
}

module _ (parse_event : Text → Option Event) (o : Origin) where
  on_payload-Carry :
      (ps ts : List Text) (s : Stream)
      → Carry parse_event ps ts
      → foldl (on_payload parse_event o) s ps ≡ stream_tokens o s ts
  on_payload-Carry [] [] s c = refl
  on_payload-Carry [] (t ∷ ts) s c = elim c [ ]
  on_payload-Carry (p ∷ ps) [] s c = elim c [ ]
  on_payload-Carry (p ∷ ps) (t ∷ ts) s (e, c) = rw (on_payload, e) (on_payload-Carry ps ts _ c)

  read_reply-tokens :
      (page : ChatPage) (chunks ps ts : List Text)
      → All (Free 10) ps
      → concat chunks ≡ frames ps
      → Carry parse_event ps ts
      → read_reply parse_event o page chunks ≡ stream_tokens o (start o page) ts
  unfolding read_reply
  read_reply-tokens page chunks ps ts free whole c =
      ap (λ (r : Reader). r.stream)
        (feed_all-frames parse_event o (start o page) chunks ps free whole)
      ∙ on_payload-Carry ps ts (start o page) c

  stream_tokens-stream_blocks :
      (ts : List Text) (s : Stream) → (stream_tokens o s ts).stream_blocks ≡ s.stream_blocks
  stream_tokens-stream_blocks [] s = refl
  stream_tokens-stream_blocks (t ∷ ts) s =
      stream_tokens-stream_blocks ts (handle_event o (token_event t) s)
      ∙ ap (λ (u : Stream). u.stream_blocks) (handle_event-token_event o t s)
      ∙ kept
    where
      kept : (on_token o (token_event t) s).stream_blocks ≡ s.stream_blocks
      kept = unfold on_token in ground arith

finalize-text : (s : Stream) → s.stream_blocks ≡ [] → finalize s ≡ s
unfolding finalize
finalize-text s h = ground (arith, h)

settle-messages : (o : Origin) (page : ChatPage) → (settle o page).messages ≡ page.messages
unfolding settle
settle-messages o page = ground arith

attempt-finished :
    (parse_event : Text → Option Event) (o : Origin) (page : ChatPage) (status : ℕ)
    (chunks : List Text)
    → is_ok status ≡ true
    → attempt parse_event o page (answered status chunks finished)
      ≡ ((finalize (read_reply parse_event o page chunks)).page, none)
unfolding attempt
attempt-finished parse_event o page status chunks good = rw good refl

conclude-none :
    (parse_event : Text → Option Event) (o : Origin) (page : ChatPage)
    → conclude parse_event o (page, none) ≡ settle o page
unfolding conclude
conclude-none parse_event o page = refl

-- The bubble of an answer.
abbrev pub answer_of : Text → ChatMessage
answer_of raw = record (bare agent (parse_thinking raw).content) {
  thinking = some (parse_thinking raw).thinking;
}

begin_send-messages :
    (a : Selected) (page : ChatPage)
    → (begin_send a page).messages
      ≡ (page.messages ++ bare user (trim page.input) ∷ []) ++ bare agent [] ∷ []
unfolding begin_send
begin_send-messages a page =
    sym (append_assoc page.messages (bare user (trim page.input) ∷ []) (bare agent [] ∷ []))

begin_send-is_current :
    (a : Selected) (page : ChatPage)
    → is_current (origin_of a page) (start (origin_of a page) (begin_send a page)) ≡ true
unfolding is_current
begin_send-is_current a page = begin_send-current a page

-- What is left of a reply of tokens, behind the `finally` block.
conclude-tokens :
    (parse_event : Text → Option Event) (a : Selected) (page : ChatPage) (status : ℕ)
    (chunks ps : List Text) (t : Text) (ts : List Text)
    → is_ok status ≡ true
    → All (Free 10) ps
    → concat chunks ≡ frames ps
    → Carry parse_event ps (t ∷ ts)
    → All (λ u. nonempty u ≡ true) (t ∷ ts)
    → (conclude parse_event (origin_of a page) (
        attempt parse_event
          (origin_of a page)
          (begin_send a page)
          (answered status chunks finished))).messages
      ≡ page.messages ++ (bare user (trim page.input) ∷ answer_of (concat (t ∷ ts)) ∷ [])
conclude-tokens parse_event a page status chunks ps t ts good free whole c full =
    rw
      (
        attempt-finished parse_event o (begin_send a page) status chunks good,
        conclude-none,
        read_reply-tokens parse_event o (begin_send a page) chunks ps (t ∷ ts) free whole c,
        finalize-text (stream_tokens o s (t ∷ ts))
            (stream_tokens-stream_blocks parse_event o (t ∷ ts) s),
        settle-messages,
      )
      (stream_tokens-messages o t ts s (page.messages ++ bare user (trim page.input) ∷ [])
          (bare agent []) (begin_send-is_current a page) refl (begin_send-messages a page) full
        ∙ append_assoc page.messages (bare user (trim page.input) ∷ [])
            (answer_of (concat (t ∷ ts)) ∷ []))
  where
    o : Origin
    o = origin_of a page

    s : Stream
    s = start o (begin_send a page)

-- A message that may be sent, to a server that streams a reply of tokens, none empty, in events that
-- the network cuts anyhow: behind the messages that were there stand the trimmed message and one
-- answer, which shows the thoughts and the content of all tokens put together.
pub send_message-streamed :
    (parse_event : Text → Option Event) (server : Request → Exchange) (a : Selected)
    (active_kbs : List Text) (page : ChatPage) (status : ℕ) (chunks ps : List Text) (t : Text)
    (ts : List Text)
    → nonempty (trim page.input) ≡ true
    → page.sending ≡ false
    → server (request_of a active_kbs page) ≡ answered status chunks finished
    → is_ok status ≡ true
    → All (Free 10) ps
    → concat chunks ≡ frames ps
    → Carry parse_event ps (t ∷ ts)
    → All (λ u. nonempty u ≡ true) (t ∷ ts)
    → (send_message parse_event server (some a) active_kbs page).messages
      ≡ page.messages ++ (bare user (trim page.input) ∷ answer_of (concat (t ∷ ts)) ∷ [])
send_message-streamed parse_event server a active_kbs page status chunks ps t ts ready unlocked
      answer good free whole c full =
    rw (send_message-sent parse_event server a active_kbs page ready unlocked, answer)
      (conclude-tokens parse_event a page status chunks ps t ts good free whole c full)
