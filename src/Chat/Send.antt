-- ===== src/Chat/Send.antt =====
-- sendMessage, from the guard to the `finally` block, against a server that answers, refuses or is
-- cut off. `parse_event` is JSON.parse on the rest of a line.
use recif.Base.{
  ℕ, Bool, true, false, not, ◌&&◌, ◌||◌, Option, none, some, List, [], ◌∷◌, ◌++◌, leb,
  if◌then◌else◌,
}
use recif.Text.{Text, codes, includes, trim}
use recif.Text.Decimal.{decimal}
use recif.Json.{nonempty}
use recif.Chat.{ChatPage, PendingGeneration, user, agent, bare, is_set, same_cid, update_last}
use recif.Chat.Events.{Event, Stream, Origin}
use recif.Chat.Stream.{Reader, feed_all, finalize}

-- The body of the POST to /api/v1/agents/SLUG/chat/stream.
pub record Request : Type 0 where
  pub slug : Text
  pub input : Text
  pub conversation_id : Option Text
  pub use_rag : Bool
  pub active_kbs : List Text

-- What is thrown: the DOMException of an abort, an Error with its message, or another value.
pub data Failure : Type 0 where
  aborted : Failure
  error : Text → Failure
  other : Failure

-- How a reply ends: by `done`, or by a rejected read.
pub data Ending : Type 0 where
  finished : Ending
  broken : Failure → Ending

-- What fetch gives: a rejection, or a status with the decoded chunks of the body.
pub data Exchange : Type 0 where
  unreachable : Failure → Exchange
  answered : ℕ → List Text → Ending → Exchange

-- `res.ok`
abbrev pub is_ok : ℕ → Bool
is_ok status = leb 200 status && leb status 299

-- resolveStreamError, with _STREAM_ERROR_MAP
unfoldable pub resolve_stream_error : Failure → Text
resolve_stream_error (error msg) =
    if includes (codes "502") msg || includes (codes "503") msg
    then codes "Agent is starting up or restarting. Try again in a few seconds."
    else if includes (codes "404") msg
    then codes "Agent not found. It may have been deleted or not deployed yet."
    else if includes (codes "Failed to fetch") msg || includes (codes "NetworkError") msg
    then codes "Network error. Check that the API is running and port-forward is active."
    else if includes (codes "500") msg
    then codes "Agent crashed while processing your message. Check the pod logs."
    else codes "Connection failed: " ++ msg
resolve_stream_error _ = codes "Could not reach the agent."

-- The agent that is selected, with what getSlug returns for it.
pub record Selected : Type 0 where
  pub slug : Text
  pub name : Text

-- `selectedAgent?.name || "Agent"`
abbrev pub display_name : Selected → Text
display_name a = if nonempty a.name then a.name else codes "Agent"

abbrev pub origin_of : Selected → ChatPage → Origin
origin_of a page = record {
  active_cid = page.conversation_id;
  slug = a.slug;
  agent_name = display_name a;
}

unfoldable pub watch_call : Selected → Text → PendingGeneration
watch_call a cid = record {
  agent_slug = a.slug;
  agent_name = display_name a;
  conversation_id = cid;
}

-- `if (activeCid) watchGeneration(…)`
unfoldable pub watch_existing :
    Selected → Option Text → List PendingGeneration → List PendingGeneration
watch_existing a none watched = watched
watch_existing a (some cid) watched =
    if nonempty cid then watched ++ watch_call a cid ∷ [] else watched

-- From the guard to the request: the two new messages, the lock, and the watch on a conversation
-- that exists.
unfoldable pub begin_send : Selected → ChatPage → ChatPage
begin_send a page = record page {
  input = [];
  suggestions = [];
  suggestions_visible = true;
  messages = page.messages ++ (bare user (trim page.input) ∷ bare agent [] ∷ []);
  sending = true;
  streaming_cid = page.conversation_id;
  in_flight = true;
  watched = watch_existing a page.conversation_id page.watched;
}

unfoldable pub request_of : Selected → List Text → ChatPage → Request
request_of a active_kbs page = record {
  slug = a.slug;
  input = trim page.input;
  conversation_id = page.conversation_id;
  use_rag = nonempty active_kbs;
  active_kbs = active_kbs;
}

-- The `catch` block.
unfoldable pub show_failure : Origin → Failure → ChatPage → ChatPage
show_failure o aborted page = page
show_failure o failure page =
    let msg = resolve_stream_error failure in
    if same_cid page.streaming_cid o.active_cid
    then record page {
      messages =
          update_last (λ m. record m { content = if nonempty m.content then m.content else msg })
            page.messages;
    }
    else page

-- The `finally` block, without the reload of the conversation list.
unfoldable pub settle : Origin → ChatPage → ChatPage
settle o page =
    if same_cid page.streaming_cid o.active_cid
    then record page { sending = false; streaming_cid = none; in_flight = false }
    else record page { in_flight = false }

module _ (parse_event : Text → Option Event) where
  -- The stream at its end, once `while (true)` is left.
  unfoldable pub read_reply : Origin → ChatPage → List Text → Stream
  read_reply o page chunks =
      let start : Reader = record {
        buffer = [];
        stream = record {
          page = page;
          raw_accum = [];
          watch_registered = is_set o.active_cid;
          stream_blocks = [];
        };
      } in
      (feed_all parse_event o start chunks).stream

  -- The `try` block: the page that it leaves, and what it throws.
  unfoldable pub attempt : Origin → ChatPage → Exchange → ChatPage × Option Failure
  attempt o page (unreachable f) = (page, some f)
  attempt o page (answered status chunks ending) =
      if is_ok status
      then elim ending [
        | finished ↦ ((finalize (read_reply o page chunks)).page, none)
        | broken f ↦ ((read_reply o page chunks).page, some f)
      ]
      else (page, some (error (codes "HTTP " ++ decimal status)))

  unfoldable pub conclude : Origin → ChatPage × Option Failure → ChatPage
  conclude o (page, none) = settle o page
  conclude o (page, some f) = settle o (show_failure o f page)

  -- sendMessage. `server` is fetch on the request.
  unfoldable pub send_message :
      (Request → Exchange) → Option Selected → List Text → ChatPage → ChatPage
  send_message server none active_kbs page = page
  send_message server (some a) active_kbs page =
      let o = origin_of a page in
      let exchange = server (request_of a active_kbs page) in
      if not (nonempty (trim page.input)) || page.sending
      then page
      else conclude o (attempt o (begin_send a page) exchange)
