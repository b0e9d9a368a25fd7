-- ===== src/Chat/Poll.antt =====
-- The interval that loadConversation starts in dashboard/src/app/(dashboard)/chat/page.tsx for a
-- conversation whose answer is still being written, from its first tick to its end.
use recif.Base.{
  ◌≡◌, refl, ap, ◌∙◌, Bool, true, false, some, List, [], ◌∷◌, ◌++◌, All, if◌then◌else◌, Bool-cases,
  inl, inr,
}
use recif.Json.{nonempty}
use recif.Chat.{ChatMessage, ChatPage, Stored, update_last, parse_messages}
use recif.Thinking.{parse_thinking}
use recif.Chat.Conversations.{
  Answer, lost, refused, got, Status, stop_polling, poll_tick, poll_done,
}

-- What one tick is answered: its request for the status, and the one for the stored conversation, if
-- it makes this one.
abbrev pub Tick : Type 0
Tick = Answer Status × Answer (List Stored)

-- setInterval, up to the clearInterval of a tick.
unfoldable pub poll_ticks : List Tick → ChatPage → ChatPage
poll_ticks [] page = page
poll_ticks ((status, final) ∷ ticks) page =
    let rest = poll_ticks ticks (poll_tick status final page) in if page.polling then rest else page

-- The answer is still being written, or a tick does not learn whether it is.
abbrev pub waits : Tick → Bool
waits (lost, _) = true
waits (refused, _) = true
waits (got status, _) = status.generating

-- The agent's last message with the part of the answer that a tick brings, if it brings one.
abbrev pub with_part : Tick → List ChatMessage → List ChatMessage
with_part (lost, _) ms = ms
with_part (refused, _) ms = ms
with_part (got status, _) ms =
    if nonempty status.partial
    then update_last
        (λ m. record m {
          content = (parse_thinking status.partial).content;
          thinking = some (parse_thinking status.partial).thinking;
        })
        ms
    else ms

abbrev pub with_parts : List Tick → List ChatMessage → List ChatMessage
with_parts [] ms = ms
with_parts (tick ∷ ticks) ms = with_parts ticks (with_part tick ms)

-- What is shown, and whether the page is locked, once the stored conversation is answered.
abbrev pub final_messages : Answer (List Stored) → List ChatMessage → List ChatMessage
final_messages (got raw) ms = parse_messages raw
final_messages _ ms = ms

abbrev pub final_lock : Answer (List Stored) → Bool → Bool
final_lock lost locked = locked
final_lock _ locked = false

poll_tick-waits :
    (tick : Tick) (page : ChatPage)
    → waits tick ≡ true
    → poll_tick tick.0 tick.1 page ≡ record page { messages = with_part tick page.messages }
unfolding poll_tick
poll_tick-waits (lost, final) page h = refl
poll_tick-waits (refused, final) page h = refl
poll_tick-waits (got status, final) page h = elim (Bool-cases (nonempty status.partial)) [
  | inl some_text ↦ rw (h, some_text)
  | inr no_text ↦ rw (h, no_text)
]

poll_tick-ended :
    (status : Status) (final : Answer (List Stored)) (page : ChatPage)
    → status.generating ≡ false
    → poll_tick (got status) final page ≡ record page {
      messages = final_messages final page.messages;
      sending = final_lock final page.sending;
      polling = false;
    }
unfolding poll_tick poll_done stop_polling
poll_tick-ended status lost page h = rw h
poll_tick-ended status refused page h = rw h
poll_tick-ended status (got raw) page h = rw h

poll_ticks-stopped :
    (ticks : List Tick) (page : ChatPage) → page.polling ≡ false → poll_ticks ticks page ≡ page
unfolding poll_ticks
poll_ticks-stopped [] page h = refl
poll_ticks-stopped ((status, final) ∷ ticks) page h = rw h

poll_ticks-next :
    (tick : Tick) (ticks : List Tick) (page : ChatPage)
    → page.polling ≡ true
    → poll_ticks (tick ∷ ticks) page ≡ poll_ticks ticks (poll_tick tick.0 tick.1 page)
unfolding poll_ticks
poll_ticks-next (status, final) ticks page h = rw h

-- Where each tick is answered before the next: a running interval goes on over any ticks that do not learn that the answer is written, showing the
-- parts that these bring in the agent's last message, and ends at the first tick that learns it,
-- whatever ticks were to follow. Then the stored conversation is shown, if it could be read; and the
-- page is not locked, unless the request for the stored conversation is lost: a page that was locked
-- stays so then, without an interval that would unlock it. No other field of the page changes.
pub poll_ticks-ended :
    (before : List Tick) (status : Status) (final : Answer (List Stored)) (after : List Tick)
    (page : ChatPage)
    → page.polling ≡ true
    → All (λ tick. waits tick ≡ true) before
    → status.generating ≡ false
    → poll_ticks (before ++ (got status, final) ∷ after) page ≡ record page {
      messages = final_messages final (with_parts before page.messages);
      sending = final_lock final page.sending;
      polling = false;
    }
poll_ticks-ended [] status final after page runs _ over =
    poll_ticks-next (got status, final) after page runs
    ∙ ap (poll_ticks after) (poll_tick-ended status final page over)
    ∙ poll_ticks-stopped after _ refl
poll_ticks-ended (tick ∷ before) status final after page runs (one, rest) over =
    poll_ticks-next tick _ page runs
    ∙ ap (poll_ticks (before ++ (got status, final) ∷ after)) (poll_tick-waits tick page one)
    ∙ poll_ticks-ended before status final after
        (record page { messages = with_part tick page.messages }) runs rest over
