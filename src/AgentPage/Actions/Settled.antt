-- ===== src/AgentPage/Actions/Settled.antt =====
-- What a sequence of actions on the page of an agent leaves behind.
use recif.Base.{
  ◌≡◌, refl, ◌∙◌, ap, Bool, true, false, Bool-cases, inl, inr, Option, none, some, List, [], ◌∷◌,
  if◌then◌else◌, arith,
}
use recif.Chat.Send.{is_ok}
use recif.AgentPage.{
  Agent, Severity, success, error, Message, AgentPage, status, thrown, with_replicas, handle_scale,
}
use recif.AgentPage.Actions.{
  returned, rejected, merge_updated, handle_agent_action, refetch_agent, PageEvent, acted, scaled,
  refetched, handle, run,
}

-- Whether the request of an event succeeds.
unfoldable pub is_done : PageEvent → Bool
is_done (acted _ (returned _)) = true
is_done (acted _ (rejected _)) = false
is_done (scaled _ (status s)) = is_ok s
is_done (scaled _ (thrown _)) = false
is_done (refetched none) = false
is_done (refetched (some _)) = true

-- What an event means for the agent if its request succeeds.
unfoldable pub change : PageEvent → Option Agent → Option Agent
change (acted _ (returned updated)) prev = merge_updated updated prev
change (scaled n _) prev = with_replicas n prev
change (refetched (some found)) _ = found
change _ prev = prev

-- The changes of those events whose requests succeed, in their order.
unfoldable pub changes : List PageEvent → Option Agent → Option Agent
changes [] prev = prev
changes (e ∷ es) prev =
    let next = changes es (change e prev) in
    let same = changes es prev in if is_done e then next else same

-- A button of the page, not the read that follows later.
unfoldable pub is_pressed : PageEvent → Bool
is_pressed (acted _ _) = true
is_pressed (scaled _ _) = true
is_pressed (refetched _) = false

abbrev pub severity : Option Message → Option Severity
severity none = none
severity (some m) = some m.type

handle-agent :
    (e : PageEvent) (page : AgentPage)
    → (handle e page).agent ≡ (if is_done e then change e page.agent else page.agent)
unfolding handle is_done change handle_agent_action handle_scale refetch_agent merge_updated
handle-agent (acted action (returned none)) page = ground arith
handle-agent (acted action (returned (some updated))) page = ground arith
handle-agent (acted action (rejected e)) page = ground arith
handle-agent (scaled n sent) page = ground arith
handle-agent (refetched found) page = ground arith

-- Whatever is pressed in whatever order, and whenever the agent is read again: the agent that the
-- page shows at the end is the one at the start, changed by those events whose requests succeed, one
-- after the other. One that fails changes nothing of it, and without an agent no button does.
pub run-agent :
    (es : List PageEvent) (page : AgentPage) → (run es page).agent ≡ changes es page.agent
unfolding run changes
run-agent [] page = refl
run-agent (e ∷ es) page =
    run-agent es (handle e page)
    ∙ ap (changes es) (handle-agent e page)
    ∙ elim (Bool-cases (is_done e)) [ inl done ↦ rw done refl | inr failed ↦ rw failed refl ]

-- On a page with an agent, a button that was pressed is free again when its request has ended, and
-- the page says that it succeeded exactly if it did, and else that it failed.
pub handle-settled :
    (e : PageEvent) (page : AgentPage) (a : Agent)
    → page.agent ≡ some a
    → is_pressed e ≡ true
    → ((handle e page).action_loading ≡ none)
      × (severity (handle e page).action_msg ≡ some (if is_done e then success else error))
unfolding handle is_done is_pressed handle_agent_action handle_scale
handle-settled (acted action answer) page a h k = ground (arith, h)
handle-settled (scaled n sent) page a h k = ground (arith, h)
handle-settled (refetched found) page a h k = ground (arith, h, k)
