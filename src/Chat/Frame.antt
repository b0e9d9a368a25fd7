-- ===== src/Chat/Frame.antt =====
-- The parts of the page that no event touches.
use recif.Base.{◌≡◌, refl, ◌∙◌, Bool, Option, List, arith}
use recif.Text.{Text}
use recif.Json.{obj, end}
use mathlib.Core.Option
use recif.Chat.{Block, component, ChatPage}
use recif.Chat.Events.{
  Event, Stream, Origin, flush_text, push_block, on_token, on_sources, on_component, on_confirm,
  on_conversation, on_done, on_trace, on_error, on_suggestions, handle_event,
}
use recif.Chat.Stream.{Reader, feed_all, finalize}
use recif.Chat.Rule.{feed_all-rule}

pub record Frame : Type 0 where
  pub streaming_cid : Option Text
  pub in_flight : Bool
  pub polling : Bool
  pub input : Text

abbrev pub frame : ChatPage → Frame
frame page = record {
  streaming_cid = page.streaming_cid;
  in_flight = page.in_flight;
  polling = page.polling;
  input = page.input;
}

push_block-frame : (b : Block) (s : Stream) → frame (push_block b s).page ≡ frame s.page
unfolding push_block flush_text
push_block-frame b s = ground arith

module _ (o : Origin) (e : Event) where
  on_token-frame : (s : Stream) → frame (on_token o e s).page ≡ frame s.page
  unfolding on_token
  on_token-frame s = ground arith

  on_sources-frame : (s : Stream) → frame (on_sources o e s).page ≡ frame s.page
  unfolding on_sources
  on_sources-frame s = ground arith

  on_component-frame : (s : Stream) → frame (on_component o e s).page ≡ frame s.page
  unfolding on_component
  on_component-frame s =
      ground (arith, push_block-frame (component e.component (Option.get_or e.props (obj end))) s)

  on_confirm-frame : (s : Stream) → frame (on_confirm o e s).page ≡ frame s.page
  unfolding on_confirm push_block flush_text
  on_confirm-frame s = ground arith

  on_conversation-frame : (s : Stream) → frame (on_conversation o e s).page ≡ frame s.page
  unfolding on_conversation
  on_conversation-frame s = ground arith

  on_done-frame : (s : Stream) → frame (on_done o e s).page ≡ frame s.page
  unfolding on_done
  on_done-frame s = ground arith

  on_trace-frame : (s : Stream) → frame (on_trace o e s).page ≡ frame s.page
  unfolding on_trace
  on_trace-frame s = ground arith

  on_error-frame : (s : Stream) → frame (on_error o e s).page ≡ frame s.page
  unfolding on_error
  on_error-frame s = ground arith

  on_suggestions-frame : (s : Stream) → frame (on_suggestions o e s).page ≡ frame s.page
  unfolding on_suggestions
  on_suggestions-frame s = ground arith

  pub handle_event-frame : (s : Stream) → frame (handle_event o e s).page ≡ frame s.page
  unfolding handle_event
  handle_event-frame s =
      on_suggestions-frame _
      ∙ on_error-frame _
      ∙ on_trace-frame _
      ∙ on_done-frame _
      ∙ on_conversation-frame _
      ∙ on_confirm-frame _
      ∙ on_component-frame _
      ∙ on_sources-frame _
      ∙ on_token-frame s

pub feed_all-frame :
    (parse_event : Text → Option Event) (o : Origin) (chunks : List Text) (r : Reader)
    → frame (feed_all parse_event o r chunks).stream.page ≡ frame r.stream.page
feed_all-frame parse_event o chunks r =
    feed_all-rule parse_event o (λ s. frame s.page ≡ frame r.stream.page)
      (λ e s h. handle_event-frame o e s ∙ h) chunks r refl

pub finalize-frame : (s : Stream) → frame (finalize s).page ≡ frame s.page
unfolding finalize
finalize-frame s = ground arith
