-- ===== src/Chat/Lock.antt =====
-- The lock of the chat page: while `sending` is set the page takes no message, so something must be
-- left that takes the lock off.
use recif.Base.{
  ◌≡◌, refl, sym, ap, ◌∙◌, true, false, not, ◌||◌, Option, none, some, List, arith, Bool-cases, inl,
  inr,
}
use recif.Text.{Text, trim}
use recif.Json.{nonempty}
use recif.Chat.{ChatMessage, ChatPage, Stored}
use recif.Chat.Events.{Event}
use recif.Chat.Send.{Request, Exchange, Selected, send_message}
use recif.Chat.Outcome.{send_message-Unlocked}
use recif.Chat.Conversations.{
  Answer, lost, refused, got, Status, leave, select_agent, new_chat, show_loaded, load_conversation,
  poll_done, poll_tick, delete_conversation,
}

-- If the page is locked, the poll that takes the lock off is running.
abbrev pub IsGuarded : ChatPage → Type 0
IsGuarded page = page.sending ≡ true → page.polling ≡ true

-- The answers with which a poll ends as it should.
abbrev pub Arrives : {A : Type 0} → Answer A → Type 0
Arrives lost = ⊥
Arrives refused = Unit
Arrives (got _) = Unit

module _ (parse_event : Text → Option Event) (server : Request → Exchange) where
  -- What the user and the timer can do. A message runs from its guard to its `finally` block, and
  -- the request at the end of a poll is not lost.
  pub data Step : ChatPage → ChatPage → Type 0 where
    typed : (t : Text) (page : ChatPage) → Step page (record page { input = t })
    sent :
        (a : Selected) (active_kbs : List Text) (page : ChatPage)
        → Step page (send_message parse_event server (some a) active_kbs page)
    selected : (page : ChatPage) → Step page (select_agent page)
    started : (page : ChatPage) → Step page (new_chat page)
    loaded :
        (a : Selected) (cid : Text) (answer : Answer (List Stored)) (page : ChatPage)
        → Step page (load_conversation a cid answer page)
    deleted :
        (cid : Text) (answer : Answer Unit) (page : ChatPage)
        → Step page (delete_conversation cid answer page)
    polled :
        (status : Answer Status) (final : Answer (List Stored)) (page : ChatPage)
        → Arrives final
        → Step page (poll_tick status final page)

  pub data Reaches : ChatPage → ChatPage → Type 0 where
    still : (page : ChatPage) → Reaches page page
    next :
        {first page page' : ChatPage} → Reaches first page → Step page page' → Reaches first page'

show_loaded-IsGuarded :
    (a : Selected) (cid : Text) (ms : List ChatMessage) (page : ChatPage)
    → page.sending ≡ false
    → IsGuarded (show_loaded a cid ms page)
unfolding show_loaded
show_loaded-IsGuarded a cid ms page h = ground (arith, h)

load_conversation-IsGuarded :
    (a : Selected) (cid : Text) (answer : Answer (List Stored)) (page : ChatPage)
    → IsGuarded (load_conversation a cid answer page)
unfolding load_conversation leave
load_conversation-IsGuarded a cid lost page = ground arith
load_conversation-IsGuarded a cid refused page = ground arith
load_conversation-IsGuarded a cid (got raw) page = show_loaded-IsGuarded a cid _ _ refl

poll_tick-IsGuarded :
    (status : Answer Status) (final : Answer (List Stored)) (page : ChatPage)
    → Arrives final
    → IsGuarded page
    → IsGuarded (poll_tick status final page)
unfolding poll_tick poll_done
poll_tick-IsGuarded lost final page _ h = h
poll_tick-IsGuarded refused final page _ h = h
poll_tick-IsGuarded (got status) lost page x h = elim x [ ]
poll_tick-IsGuarded (got status) (got raw) page _ h = ground (arith, h)
poll_tick-IsGuarded (got status) refused page _ h = ground (arith, h)

delete_conversation-IsGuarded :
    (cid : Text) (answer : Answer Unit) (page : ChatPage)
    → IsGuarded page
    → IsGuarded (delete_conversation cid answer page)
unfolding delete_conversation
delete_conversation-IsGuarded cid lost page h = h
delete_conversation-IsGuarded cid refused page h = ground (arith, h)
delete_conversation-IsGuarded cid (got x) page h = ground (arith, h)

module _ (parse_event : Text → Option Event) (server : Request → Exchange) where
  -- Nothing is sent while the page is locked, nor without a text.
  pub send_message-barred :
      (a : Option Selected) (active_kbs : List Text) (page : ChatPage)
      → (not (nonempty (trim page.input)) || page.sending) ≡ true
      → send_message parse_event server a active_kbs page ≡ page
  unfolding send_message
  send_message-barred none active_kbs page h = refl
  send_message-barred (some a) active_kbs page h = ground (arith, h)

  send_message-IsGuarded :
      (a : Selected) (active_kbs : List Text) (page : ChatPage)
      → IsGuarded page
      → IsGuarded (send_message parse_event server (some a) active_kbs page)
  send_message-IsGuarded a active_kbs page h locked =
      elim (Bool-cases (not (nonempty (trim page.input)) || page.sending)) [
        | inl barred ↦ by_page barred
        | inr ready ↦ by_unlock ready
      ]
    where
      by_page :
          (not (nonempty (trim page.input)) || page.sending) ≡ true
          → (send_message parse_event server (some a) active_kbs page).polling ≡ true
      by_page barred =
          let same = send_message-barred (some a) active_kbs page barred in
          ap (λ (p : ChatPage). p.polling) same
          ∙ h (sym (ap (λ (p : ChatPage). p.sending) same) ∙ locked)

      by_unlock :
          (not (nonempty (trim page.input)) || page.sending) ≡ false
          → (send_message parse_event server (some a) active_kbs page).polling ≡ true
      by_unlock ready =
          let unlocked =
            send_message-Unlocked parse_event server a active_kbs page (ground (arith, ready))
              (ground (arith, ready)) in
          cc (unlocked.sending, locked)

  Step-IsGuarded :
      {page page' : ChatPage}
      → Step parse_event server page page'
      → IsGuarded page
      → IsGuarded page'
  Step-IsGuarded (typed t page) h = h
  Step-IsGuarded (sent a active_kbs page) h = send_message-IsGuarded a active_kbs page h
  Step-IsGuarded (selected page) h = unfold select_agent leave in ground arith
  Step-IsGuarded (started page) h = unfold new_chat leave in ground arith
  Step-IsGuarded (loaded a cid answer page) h = load_conversation-IsGuarded a cid answer page
  Step-IsGuarded (deleted cid answer page) h = delete_conversation-IsGuarded cid answer page h
  Step-IsGuarded (polled status final page a) h = poll_tick-IsGuarded status final page a h

  -- From a page whose lock, if it is set, has a poll, every sequence of messages, choices of an
  -- agent or a conversation, deletions and ticks leads to such a page again, as long as the request
  -- at the end of a poll is not lost.
  pub Reaches-IsGuarded :
      {first page : ChatPage}
      → Reaches parse_event server first page
      → IsGuarded first
      → IsGuarded page
  Reaches-IsGuarded (still page) h = h
  Reaches-IsGuarded (next steps step) h = Step-IsGuarded step (Reaches-IsGuarded steps h)
