-- ===== src/Notifications.antt =====
-- The notifications of the dashboard, dashboard/src/lib/notifications.tsx: the list that the bell
-- shows, and the conversations whose answer is awaited.
pub mod Ids
pub mod Store
pub mod Poll
mod Tests
use recif.Base.{
  ℕ, ◌+◌, Bool, true, false, not, Option, none, some, List, [], ◌∷◌, ◌++◌, map, filter, foldl,
  length, if◌then◌else◌,
}
use recif.Text.{Text, codes, text_eq}
use recif.Text.Decimal.{decimal}
use recif.Json.{nonempty}
use recif.Thinking.{Parsed, parse_partial}
use recif.Chat.{PendingGeneration, same_cid}
use recif.Chat.Conversations.{Answer, lost, refused, got, Status}
use recif.Maps.{Map, map_get, map_set, map_delete}

pub data NotificationType : Type 0 where
  success info warning error : NotificationType

pub record Notification : Type 0 where
  pub id : Text
  pub type : NotificationType
  pub title : Text
  pub message : Option Text
  pub timestamp : ℕ
  pub read : Bool
  pub source : Option Text
  pub conversation_id : Option Text

-- The provider: its state, its two maps, and the module's counter.
pub record Provider : Type 0 where
  pub notifications : List Notification
  pub id_counter : ℕ
  pub active_conversation_id : Option Text
  pub pending : Map PendingGeneration
  pub partials : Map Parsed

-- The arguments of push, but for the time.
pub record Draft : Type 0 where
  pub type : NotificationType
  pub title : Text
  pub message : Option Text
  pub source : Option Text
  pub conversation_id : Option Text

-- `notif_${now}_${n}`
abbrev pub make_id : ℕ → ℕ → Text
make_id now n = codes "notif_" ++ (decimal now ++ (codes "_" ++ decimal n))

abbrev pub notification : ℕ → ℕ → Draft → Notification
notification now n d = record {
  id = make_id now n;
  type = d.type;
  title = d.title;
  message = d.message;
  timestamp = now;
  read = false;
  source = d.source;
  conversation_id = d.conversation_id;
}

-- push at the time `now`, which both calls of Date.now() give: the provider and the id.
unfoldable pub push : ℕ → Draft → Provider → Provider × Text
push now d p =
    let n = p.id_counter + 1 in
    (
      record p { notifications = notification now n d ∷ p.notifications; id_counter = n },
      make_id now n,
    )

unfoldable pub mark_read : Text → Provider → Provider
mark_read id p = record p {
  notifications =
      map (λ (n : Notification). if text_eq n.id id then record n { read = true } else n)
        p.notifications;
}

unfoldable pub mark_all_read : Provider → Provider
mark_all_read p = record p {
  notifications = map (λ (n : Notification). record n { read = true }) p.notifications;
}

unfoldable pub dismiss : Text → Provider → Provider
dismiss id p = record p {
  notifications = filter (λ (n : Notification). not (text_eq n.id id)) p.notifications;
}

unfoldable pub clear_all : Provider → Provider
clear_all p = record p { notifications = [] }

abbrev pub unread_in : List Notification → ℕ
unread_in ns = length (filter (λ (n : Notification). not n.read) ns)

unfoldable pub unread_count : Provider → ℕ
unread_count p = unread_in p.notifications

unfoldable pub watch_generation : PendingGeneration → Provider → Provider
watch_generation g p = record p { pending = map_set g.conversation_id g p.pending }

unfoldable pub get_pending_partial : Text → Provider → Option Parsed
get_pending_partial cid p = map_get cid p.partials

-- What is pushed when an answer is there.
abbrev pub response_ready : Text → PendingGeneration → Draft
response_ready cid g = record {
  type = success;
  title = codes "Response ready";
  message = some (g.agent_name ++ codes " finished responding");
  source = some (codes "chat");
  conversation_id = some cid;
}

-- The end of a generation.
unfoldable pub finish : ℕ → Text → PendingGeneration → Provider → Provider
finish now cid g p =
    let done = record p {
      pending = map_delete cid p.pending;
      partials = map_delete cid p.partials;
    } in
    if same_cid p.active_conversation_id (some cid)
    then done
    else (push now (response_ready cid g) done).0

-- The body of the polling loop for one entry; `server` answers for an agent and a conversation.
unfoldable pub poll_entry :
    ℕ → (Text → Text → Answer Status) → Provider → Text × PendingGeneration → Provider
poll_entry now server p (cid, g) = elim (server g.agent_slug cid) [
  | lost ↦ p
  | refused ↦ p
  | got status ↦
      if status.generating
      then if nonempty status.partial
        then record p { partials = map_set cid (parse_partial status.partial) p.partials }
        else p
      else finish now cid g p
]

-- One tick of the interval, with nothing else in between. Entries that are deleted meanwhile are
-- those that the loop has passed.
unfoldable pub poll_round : ℕ → (Text → Text → Answer Status) → Provider → Provider
poll_round now server p = foldl (poll_entry now server) p p.pending
