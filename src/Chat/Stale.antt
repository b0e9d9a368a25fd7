-- ===== src/Chat/Stale.antt =====
-- A stream whose conversation is no longer the one that is shown: selectAgent, loadConversation and
-- newChat reset `streamingCidRef`, and every event looks at it.
use recif.Base.{◌≡◌, refl, ap, ◌∙◌, Bool, false, Option, List, arith}
use recif.Text.{Text}
use recif.Json.{nonempty}
use recif.Chat.{ChatMessage, same_cid}
use recif.Chat.Events.{
  Event, Stream, Origin, is_current, on_token, on_sources, on_component, on_confirm,
  on_conversation, on_done, on_trace, on_error, on_suggestions, handle_event,
}

-- What such a stream has to leave alone.
pub record Shown : Type 0 where
  pub messages : List ChatMessage
  pub conversation_id : Option Text
  pub sending : Bool
  pub streaming_cid : Option Text

abbrev pub shown : Stream → Shown
shown s = record {
  messages = s.page.messages;
  conversation_id = s.page.conversation_id;
  sending = s.page.sending;
  streaming_cid = s.page.streaming_cid;
}

module _ (o : Origin) (e : Event) where
  on_token-stale : (s : Stream) → is_current o s ≡ false → shown (on_token o e s) ≡ shown s
  unfolding on_token
  on_token-stale s h = ground (arith, h)

  on_sources-stale : (s : Stream) → is_current o s ≡ false → shown (on_sources o e s) ≡ shown s
  unfolding on_sources
  on_sources-stale s h = ground (arith, h)

  on_component-stale : (s : Stream) → is_current o s ≡ false → shown (on_component o e s) ≡ shown s
  unfolding on_component
  on_component-stale s h = ground (arith, h)

  on_confirm-stale : (s : Stream) → is_current o s ≡ false → shown (on_confirm o e s) ≡ shown s
  unfolding on_confirm
  on_confirm-stale s h = ground (arith, h)

  on_conversation-stale :
      (s : Stream) → is_current o s ≡ false → shown (on_conversation o e s) ≡ shown s
  unfolding on_conversation
  on_conversation-stale s h = ground (arith, h)

  on_done-stale : (s : Stream) → is_current o s ≡ false → shown (on_done o e s) ≡ shown s
  unfolding on_done
  on_done-stale s h = ground (arith, h)

  on_trace-stale : (s : Stream) → nonempty e.trace_id ≡ false → shown (on_trace o e s) ≡ shown s
  unfolding on_trace
  on_trace-stale s h = ground (arith, h)

  on_error-stale : (s : Stream) → is_current o s ≡ false → shown (on_error o e s) ≡ shown s
  unfolding on_error
  on_error-stale s h = ground (arith, h)

  on_suggestions-stale : (s : Stream) → shown (on_suggestions o e s) ≡ shown s
  unfolding on_suggestions
  on_suggestions-stale s = ground arith

-- What is kept of a stale stream `s` in `s'`: it is stale, and shows the same.
record Stays (o : Origin) (s s' : Stream) : Type 0 where
  stale : is_current o s' ≡ false
  same : shown s' ≡ shown s

is_current-shown :
    (o : Origin) (s s' : Stream) → shown s' ≡ shown s → is_current o s' ≡ is_current o s
unfolding is_current
is_current-shown o s s' h = ap (λ (v : Shown). same_cid v.streaming_cid o.active_cid) h

Stays-step :
    {o : Origin} {s s' : Stream} (f : Stream → Stream)
    → (is_current o s' ≡ false → shown (f s') ≡ shown s')
    → Stays o s s'
    → Stays o s (f s')
Stays-step {o} {s} {s'} f keep h = record {
  stale = is_current-shown o s' (f s') (keep h.stale) ∙ h.stale;
  same = keep h.stale ∙ h.same;
}

-- Where the page's reference to the conversation that is streamed differs from the conversation that
-- a stream began in, a new chat counting as none, an event of this stream that carries no trace id
-- changes neither the messages, the conversation and the lock that are shown, nor what is streamed.
pub handle_event-stale :
    (o : Origin) (e : Event) (s : Stream)
    → is_current o s ≡ false
    → nonempty e.trace_id ≡ false
    → shown (handle_event o e s) ≡ shown s
unfolding handle_event
handle_event-stale o e s h untraced =
    let s0 : Stays o s s = record { stale = h; same = refl } in
    let s1 = Stays-step (on_token o e) (on_token-stale o e s) s0 in
    let s2 = Stays-step (on_sources o e) (on_sources-stale o e _) s1 in
    let s3 = Stays-step (on_component o e) (on_component-stale o e _) s2 in
    let s4 = Stays-step (on_confirm o e) (on_confirm-stale o e _) s3 in
    let s5 = Stays-step (on_conversation o e) (on_conversation-stale o e _) s4 in
    let s6 = Stays-step (on_done o e) (on_done-stale o e _) s5 in
    let s7 = Stays-step (on_trace o e) (λ _. on_trace-stale o e _ untraced) s6 in
    let s8 = Stays-step (on_error o e) (on_error-stale o e _) s7 in
    (Stays-step (on_suggestions o e) (λ _. on_suggestions-stale o e _) s8).same
