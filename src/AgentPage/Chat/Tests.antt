-- ===== src/AgentPage/Chat/Tests.antt =====
-- Runs of the chat tab.
use recif.Base.{◌≡◌, refl, false, Option, none, some, List, [], ◌∷◌, ◌++◌, map, arith}
use recif.Text.{Text, codes, text_eq, strip_prefix, trim, trim_start, trim_end, cons_end, is_space}
use recif.Chat.{user, agent, same_cid}
use recif.AgentPage.Chat.{
  Running, AgentChat, Payload, closed, ended, sent, chunk, on_event, on_events,
}
use recif.AgentPage.Chat.Stale.{seen, OfStream, part, on_event-stale, on_events-overtaken}
use recif.AgentPage.Chat.Tokens.{token_payload, Written}
use recif.AgentPage.Chat.Answered.{answered, on_events-answered}

abbrev parse : Text → Option Payload
parse payload = elim (strip_prefix (codes "t:") payload) [
  | none ↦ none
  | some t ↦ some (token_payload t)
]

abbrev write : Text → Text
write t = codes "t:" ++ t

abbrev tail_stream : Running
tail_stream = record { controller = 0; active_cid = some (codes "a"); buffer = [] }

abbrev open_chat : Option Text → List Running → AgentChat
open_chat streaming running = record {
  messages = [];
  input = codes "Hi";
  sending = false;
  conversation_id = some (codes "a");
  stored = some (codes "a");
  streaming_cid = streaming;
  abort_ref = none;
  running = running;
  next = 1;
}

abbrev late : OfStream 0
late = part (codes "data: t:x\n")

on_event-stale_example :
    seen (
      on_event parse
        (chunk 0 (codes "data: t:x\n"))
        (open_chat (some (codes "b")) (tail_stream ∷ [])))
    ≡ seen (open_chat (some (codes "b")) (tail_stream ∷ []))
unfolding same_cid text_eq
on_event-stale_example =
    on_event-stale parse late tail_stream (open_chat (some (codes "b")) (tail_stream ∷ [])) refl
      refl

on_events-overtaken_example :
    ((on_events parse
        (sent ∷ ended 0 closed ∷ chunk 1 (codes "data: t:x\n") ∷ [])
        (open_chat (some (codes "a")) (tail_stream ∷ []))).messages
      ≡ record { role = user; content = trim (codes "Hi") }
        ∷ record { role = agent; content = [] }
        ∷ [])
    × ((on_events parse
          (sent ∷ ended 0 closed ∷ chunk 1 (codes "data: t:x\n") ∷ [])
          (open_chat (some (codes "a")) (tail_stream ∷ []))).sending
        ≡ false)
unfolding trim trim_start trim_end cons_end is_space
on_events-overtaken_example =
    on_events-overtaken parse (open_chat (some (codes "a")) (tail_stream ∷ [])) 0 (codes "a")
      (codes "data: t:x\n") tail_stream refl (omega arith) refl refl refl refl

hello-Written : Written parse (some (codes "a")) write (codes "Hel" ∷ codes "lo" ∷ [])
unfolding strip_prefix
hello-Written = ((refl, ground arith), ((refl, ground arith), tt))

on_events-answered_example :
    on_events parse
      (sent
        ∷ (map (chunk 1) (codes "data: t:Hel\n\nda" ∷ codes "ta: t:lo\n\n" ∷ [])
            ++ ended 1 closed ∷ []))
      (open_chat none [])
    ≡ answered (codes "Hello") (open_chat none [])
unfolding trim trim_start trim_end cons_end is_space
on_events-answered_example =
    on_events-answered parse write (codes "Hel" ∷ codes "lo" ∷ [])
      (codes "data: t:Hel\n\nda" ∷ codes "ta: t:lo\n\n" ∷ []) (open_chat none []) refl refl refl
      hello-Written refl
