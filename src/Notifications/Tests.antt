-- ===== src/Notifications/Tests.antt =====
-- Runs of the notifications on small inputs.
use recif.Base.{◌≡◌, false, none, some, [], ◌∷◌, arith, if◌then◌else◌}
use recif.Text.{Text, codes, text_eq}
use recif.Chat.{PendingGeneration, same_cid}
use recif.Chat.Conversations.{Answer, lost, got, Status}
use recif.Maps.Keys.{HasKeys}
use recif.Notifications.{info, Provider, Draft, poll_round}
use recif.Notifications.Store.{IsOrdered}
use recif.Notifications.Poll.{poll_round-pending, conversations_of, poll_round-told}

abbrev hello : Draft
hello = record {
  type = info;
  title = codes "Hello";
  message = none;
  source = none;
  conversation_id = none;
}

abbrev generation : Text → PendingGeneration
generation cid = record {
  agent_slug = codes "helper";
  agent_name = codes "Helper";
  conversation_id = cid;
}

-- Two conversations are watched, and the first is on the screen.
abbrev watching : Provider
watching = record {
  notifications = [];
  id_counter = 0;
  active_conversation_id = some (codes "a");
  pending =
      (codes "a", generation (codes "a"))
      ∷ (codes "b", generation (codes "b"))
      ∷ (codes "c", generation (codes "c"))
      ∷ [];
  partials = [];
}

-- The third is not answered.
abbrev server : Text → Text → Answer Status
server _ cid =
    if text_eq cid (codes "c") then lost else got (record { generating = false; partial = [] })

watching-HasKeys : HasKeys watching.pending
unfolding text_eq
watching-HasKeys = ground arith

poll_round-pending_example :
    (poll_round 5 server watching).pending ≡ (codes "c", generation (codes "c")) ∷ []
unfolding text_eq
poll_round-pending_example = poll_round-pending 5 server watching watching-HasKeys

poll_round-told_example :
    conversations_of (poll_round 5 server watching).notifications ≡ some (codes "b") ∷ []
unfolding text_eq same_cid
poll_round-told_example = poll_round-told 5 server watching

watching-IsOrdered : IsOrdered watching
watching-IsOrdered = tt
