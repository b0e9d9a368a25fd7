-- ===== src/Chat/Tests.antt =====
-- Runs of the chat page on small inputs.
use recif.Base.{◌≡◌, refl, true, false, Option, none, some, List, [], ◌∷◌, ◌++◌, foldl, All, arith}
use recif.Text.{Text, codes, trim, is_space, trim_start, trim_end, cons_end}
use recif.Text.Decimal.{decimal}
use recif.Text.Regions.{Free}
use recif.Json.{nonempty}
use recif.Chat.{ChatPage, user, agent, bare}
use recif.Chat.Events.{Event, Stream, Origin}
use recif.Chat.Stream.{split_lines, handle_line, feed_all, finalize}
use recif.Chat.Framing.{concat, feed_all-concat}
use recif.Chat.Transcript.{transcript, feed_all-transcript}
use recif.Chat.Tokens.{token_event}
use recif.Chat.Send.{
  Request, aborted, error, finished, broken, Exchange, answered, resolve_stream_error, Selected,
  send_message,
}
use recif.Chat.Outcome.{Unlocked, send_message-Unlocked}
use recif.Chat.Refused.{send_message-refused}
use recif.Chat.Streamed.{answer_of, send_message-streamed}

-- A server whose payloads are the tokens themselves.
abbrev pub as_token : Text → Option Event
as_token t = some (token_event t)

abbrev pub helper : Selected
helper = record { slug = codes "helper"; name = codes "Helper" }

abbrev pub empty_page : ChatPage
empty_page = record {
  messages = [];
  input = codes " hi ";
  sending = false;
  conversation_id = some (codes "c1");
  streaming_cid = none;
  in_flight = false;
  suggestions = [];
  suggestions_visible = true;
  polling = false;
  watched = [];
}

-- Two events, cut in the middle of the first.
abbrev two_chunks : List Text
two_chunks = codes "data: <think>a</th" ∷ codes "ink>\n\ndata: ok\n\n" ∷ []

abbrev two_tokens : List Text
two_tokens = codes "<think>a</think>" ∷ codes "ok" ∷ []

abbrev pub streaming_server : Request → Exchange
streaming_server _ = answered 200 two_chunks finished

has_input : nonempty (trim empty_page.input) ≡ true
unfolding trim trim_start trim_end cons_end is_space
has_input = refl

two_tokens-Free : All (Free 10) two_tokens
two_tokens-Free = ground arith

send_message-streamed_example :
    (send_message as_token streaming_server (some helper) [] empty_page).messages
    ≡ bare user (trim (codes " hi ")) ∷ answer_of (codes "<think>a</think>ok") ∷ []
send_message-streamed_example =
    send_message-streamed as_token streaming_server helper [] empty_page 200 two_chunks two_tokens
      (codes "<think>a</think>") (codes "ok" ∷ []) has_input refl refl refl two_tokens-Free refl
      (refl, (refl, tt)) (refl, (refl, tt))

abbrev failing_server : Request → Exchange
failing_server _ = answered 200 two_chunks (broken aborted)

send_message-Unlocked_example :
    Unlocked
      (some (bare user (trim (codes " hi "))) ∷ none ∷ [])
      (send_message as_token failing_server (some helper) [] empty_page)
send_message-Unlocked_example =
    send_message-Unlocked as_token failing_server helper [] empty_page has_input refl

abbrev refusing_server : Request → Exchange
refusing_server _ = answered 503 [] finished

send_message-refused_example :
    (send_message as_token refusing_server (some helper) [] empty_page).messages
    ≡ bare user (trim (codes " hi "))
      ∷ bare agent (resolve_stream_error (error (codes "HTTP " ++ decimal 503)))
      ∷ []
send_message-refused_example =
    send_message-refused as_token refusing_server helper [] empty_page 503 [] finished has_input
      refl refl refl

abbrev pub small_origin : Origin
small_origin = record { active_cid = none; slug = codes "helper"; agent_name = codes "Helper" }

abbrev pub small_stream : Stream
small_stream = record {
  page = record empty_page { messages = bare user (codes "hi") ∷ bare agent [] ∷ [] };
  raw_accum = [];
  watch_registered = false;
  stream_blocks = [];
}

feed_all-concat_example :
    feed_all as_token small_origin (record { buffer = []; stream = small_stream }) two_chunks
    ≡ record {
      buffer = (split_lines (concat two_chunks)).1;
      stream =
          foldl
            (handle_line as_token small_origin)
            small_stream
            (split_lines (concat two_chunks)).0;
    }
feed_all-concat_example = feed_all-concat as_token small_origin small_stream two_chunks

feed_all-transcript_example :
    (transcript
        (feed_all as_token small_origin
          (record { buffer = []; stream = small_stream })
          two_chunks).stream.page.messages
      ≡ some (bare user (codes "hi")) ∷ none ∷ [])
    × (transcript
          (finalize
            (feed_all as_token small_origin
              (record { buffer = []; stream = small_stream })
              two_chunks).stream).page.messages
        ≡ some (bare user (codes "hi")) ∷ none ∷ [])
feed_all-transcript_example =
    feed_all-transcript as_token small_origin two_chunks
      (record { buffer = []; stream = small_stream })
