-- ===== src/Chat/Views.antt =====
-- What an event can change in the list of messages: whatever view of the list an update of the
-- agent's last message keeps, every event keeps, but for the trace event, which has its own lemma.
use recif.Base.{◌≡◌, refl, ◌∙◌, ◌&&◌, Option, none, some, Bool-cases, inl, inr, List, arith}
use recif.Text.{trim}
use recif.Json.{nonempty}
use recif.Chat.{Block, Confirm, Source, ChatMessage, is_agent, update_last}
use recif.Chat.Events.{
  Event, Stream, Origin, flush_text, push_block, is_current, on_token, on_sources, on_component,
  on_confirm, on_conversation, on_done, on_trace, on_error, on_suggestions, handle_event,
}
use recif.Chat.Stream.{finalize}

-- Updates that leave the agent's messages the agent's.
abbrev pub KeepsAgent : (ChatMessage → ChatMessage) → Type 0
KeepsAgent f = (m : ChatMessage) → is_agent (f m) ≡ is_agent m

module _ {X : Type 0} (view : List ChatMessage → X)
    (keep : (f : ChatMessage → ChatMessage) (ms : List ChatMessage)
      → KeepsAgent f
      → view (update_last f ms) ≡ view ms) where
  abbrev pub seen : Stream → X
  seen s = view s.page.messages

  flush_text-view : (s : Stream) → seen (flush_text s) ≡ seen s
  unfolding flush_text
  flush_text-view s = ground arith

  push_block-view : (b : Block) (s : Stream) → seen (push_block b s) ≡ seen s
  unfolding push_block
  push_block-view b s = keep _ (flush_text s).page.messages (λ m. refl) ∙ flush_text-view s

  module _ (o : Origin) (e : Event) where
    on_token-view : (s : Stream) → seen (on_token o e s) ≡ seen s
    unfolding on_token
    on_token-view s = elim (Bool-cases (nonempty e.token && is_current o s)) [
      | inl taken ↦ rw taken (keep _ s.page.messages (λ m. refl))
      | inr other ↦ rw other
    ]

    on_sources-view : (s : Stream) → seen (on_sources o e s) ≡ seen s
    unfolding on_sources
    on_sources-view s = by_sources e.sources
      where
        by_sources :
            (found : Option (List Source))
            → seen (on_sources o (record e { sources = found }) s) ≡ seen s
        by_sources none = refl
        by_sources (some found) = elim (Bool-cases (is_current o s)) [
          | inl taken ↦ rw taken (keep _ s.page.messages (λ m. refl))
          | inr other ↦ rw other
        ]

    on_component-view : (s : Stream) → seen (on_component o e s) ≡ seen s
    unfolding on_component
    on_component-view s = elim (Bool-cases (nonempty e.component && is_current o s)) [
      | inl taken ↦ rw taken (push_block-view _ s)
      | inr other ↦ rw other
    ]

    on_confirm-view : (s : Stream) → seen (on_confirm o e s) ≡ seen s
    unfolding on_confirm
    on_confirm-view s = by_confirm e.confirm
      where
        by_confirm :
            (c : Option Confirm) → seen (on_confirm o (record e { confirm = c }) s) ≡ seen s
        by_confirm none = refl
        by_confirm (some c) = elim (Bool-cases (is_current o s)) [
          | inl taken ↦ rw taken (push_block-view _ s)
          | inr other ↦ rw other
        ]

    on_conversation-view : (s : Stream) → seen (on_conversation o e s) ≡ seen s
    unfolding on_conversation
    on_conversation-view s = ground arith

    on_done-view : (s : Stream) → seen (on_done o e s) ≡ seen s
    unfolding on_done
    on_done-view s = elim (Bool-cases (e.done && is_current o s)) [
      | inl taken ↦ elim (Bool-cases (nonempty e.trace_id)) [
        | inl traced ↦ rw (taken, traced) (keep _ s.page.messages (λ m. refl))
        | inr plain ↦ rw (taken, plain)
      ]
      | inr other ↦ rw other
    ]

    on_error-view : (s : Stream) → seen (on_error o e s) ≡ seen s
    unfolding on_error
    on_error-view s = elim (Bool-cases (nonempty e.error && is_current o s)) [
      | inl taken ↦ rw taken (keep _ s.page.messages (λ m. refl))
      | inr other ↦ rw other
    ]

    on_suggestions-view : (s : Stream) → seen (on_suggestions o e s) ≡ seen s
    unfolding on_suggestions
    on_suggestions-view s = ground arith

    pub handle_event-view :
        (s : Stream)
        → ((s : Stream) → seen (on_trace o e s) ≡ seen s)
        → seen (handle_event o e s) ≡ seen s
    unfolding handle_event
    handle_event-view s trace =
        on_suggestions-view _
        ∙ on_error-view _
        ∙ trace _
        ∙ on_done-view _
        ∙ on_conversation-view _
        ∙ on_confirm-view _
        ∙ on_component-view _
        ∙ on_sources-view _
        ∙ on_token-view s

  pub finalize-view : (s : Stream) → seen (finalize s) ≡ seen s
  unfolding finalize
  finalize-view s = elim (Bool-cases (nonempty s.stream_blocks && nonempty (trim s.raw_accum))) [
    | inl taken ↦ rw taken (keep _ s.page.messages (λ m. refl))
    | inr other ↦ rw other
  ]
