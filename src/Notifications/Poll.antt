-- ===== src/Notifications/Poll.antt =====
-- The polling loop: a round takes off the conversations whose answer is there, and tells the user of
-- each that is not on the screen.
use recif.Base.{
  ℕ, ◌≡◌, refl, sym, ap, ap₂, ◌∙◌, Bool, true, false, not, ◌&&◌, Bool-cases, inl, inr, Option, some,
  List, [], ◌∷◌, ◌++◌, map, filter, foldl, All, All-append, append_assoc, arith, if◌then◌else◌,
}
use recif.Text.{Text, text_eq}
use recif.Text.Equality.{text_eq_comm}
use recif.Chat.{PendingGeneration, same_cid}
use recif.Chat.Conversations.{Answer, lost, refused, got, Status}
use recif.Maps.Keys.{IsFresh, HasKeys, map_delete-between}
use recif.Maps.{Map, map_delete}
use recif.Notifications.{Notification, Provider, push, finish, poll_entry, poll_round}

abbrev pub Entry : Type 0
Entry = Text × PendingGeneration

-- The conversations of the notifications.
abbrev pub conversations_of : List Notification → List (Option Text)
conversations_of = map (λ (n : Notification). n.conversation_id)

-- Whether the server says that nothing is generated any more.
abbrev pub is_over : Answer Status → Bool
is_over lost = false
is_over refused = false
is_over (got status) = not status.generating

module _ (now : ℕ) (server : Text → Text → Answer Status) where
  abbrev pub finished : Entry → Bool
  finished (cid, g) = is_over (server g.agent_slug cid)

  -- Whether the user is told of it.
  abbrev pub announced : Option Text → Entry → Bool
  announced active (cid, g) = is_over (server g.agent_slug cid) && not (same_cid active (some cid))

  poll_entry-kept :
      (p : Provider) (e : Entry)
      → finished e ≡ false
      → ((poll_entry now server p e).pending ≡ p.pending)
        × ((poll_entry now server p e).notifications ≡ p.notifications)
        × ((poll_entry now server p e).id_counter ≡ p.id_counter)
        × ((poll_entry now server p e).active_conversation_id ≡ p.active_conversation_id)
  unfolding poll_entry
  poll_entry-kept p (cid, g) h = by_answer (server g.agent_slug cid) refl
    where
      by_answer :
          (a : Answer Status)
          → server g.agent_slug cid ≡ a
          → ((poll_entry now server p (cid, g)).pending ≡ p.pending)
            × ((poll_entry now server p (cid, g)).notifications ≡ p.notifications)
            × ((poll_entry now server p (cid, g)).id_counter ≡ p.id_counter)
            × ((poll_entry now server p (cid, g)).active_conversation_id ≡ p.active_conversation_id)
      by_answer lost e = ground (arith, e)
      by_answer refused e = ground (arith, e)
      by_answer (got status) e = ground (arith, e, h)

  poll_entry-finished :
      (p : Provider) (e : Entry)
      → finished e ≡ true
      → poll_entry now server p e ≡ finish now e.0 e.1 p
  unfolding poll_entry
  poll_entry-finished p (cid, g) h = by_answer (server g.agent_slug cid) refl
    where
      by_answer :
          (a : Answer Status)
          → server g.agent_slug cid ≡ a
          → poll_entry now server p (cid, g) ≡ finish now cid g p
      by_answer lost e = ground (arith, e, h)
      by_answer refused e = ground (arith, e, h)
      by_answer (got status) e = ground (arith, e, h)

  poll_entry-pending :
      (p : Provider) (kept es : Map PendingGeneration) (e : Entry)
      → finished e ≡ true
      → p.pending ≡ kept ++ e ∷ es
      → IsFresh e.0 kept
      → IsFresh e.0 es
      → (poll_entry now server p e).pending ≡ kept ++ es
  unfolding finish push
  poll_entry-pending p kept es e h pending before after =
      ap (λ (q : Provider). q.pending) (poll_entry-finished p e h)
      ∙ taken_off
      ∙ ap (map_delete e.0) pending
      ∙ map_delete-between e kept es before after
    where
      taken_off : (finish now e.0 e.1 p).pending ≡ map_delete e.0 p.pending
      taken_off = ground arith

  abbrev pub unfinished : Entry → Bool
  unfinished e = not (finished e)

  -- A key that is fresh in two maps is fresh in their entries together.
  poll_entries-pending :
      (es kept : Map PendingGeneration) (p : Provider)
      → p.pending ≡ kept ++ es
      → HasKeys es
      → All (λ e. IsFresh e.0 kept) es
      → (foldl (poll_entry now server) p es).pending ≡ kept ++ filter unfinished es
  poll_entries-pending [] kept p pending _ _ = pending
  poll_entries-pending (e ∷ es) kept p pending (after, keys) (before, apart) =
      elim (Bool-cases (finished e)) [
        | inl over ↦ rw over (
            poll_entries-pending es kept (poll_entry now server p e)
              (poll_entry-pending p kept es e over pending before after) keys apart)
        | inr awaited ↦ rw awaited (
            poll_entries-pending es (kept ++ e ∷ []) (poll_entry now server p e)
              ((poll_entry-kept p e awaited).0 ∙ pending ∙ sym (append_assoc kept (e ∷ []) es)) keys
              (still_apart es after apart)
            ∙ append_assoc kept (e ∷ []) (filter unfinished es))
      ]
    where
      still_apart :
          (ds : Map PendingGeneration)
          → IsFresh e.0 ds
          → All (λ d. IsFresh d.0 kept) ds
          → All (λ d. IsFresh d.0 (kept ++ e ∷ [])) ds
      still_apart [] _ _ = tt
      still_apart (d ∷ ds) (f, fs) (a, as') = (
        All-append (λ c. text_eq c.0 d.0 ≡ false) kept (e ∷ []) a (text_eq_comm e.0 d.0 ∙ f, tt),
        still_apart ds fs as',
      )

  none_kept :
      (es : Map PendingGeneration) → All (λ (e : Entry). IsFresh {A = PendingGeneration} e.0 []) es
  none_kept [] = tt
  none_kept (e ∷ es) = (tt, none_kept es)

  -- Where each conversation is watched once, a round takes off the watch exactly those whose answer
  -- is there, whatever the other requests come to; the others keep their order.
  pub poll_round-pending :
      (p : Provider)
      → HasKeys p.pending
      → (poll_round now server p).pending ≡ filter unfinished p.pending
  unfolding poll_round
  poll_round-pending p keys = poll_entries-pending p.pending [] p refl keys (none_kept p.pending)

  -- Those that a round tells of come in front, the last one first.
  abbrev pub told : Option Text → List (Option Text) → Map PendingGeneration → List (Option Text)
  told active = foldl (λ cs e. if announced active e then some e.0 ∷ cs else cs)

  poll_entry-told :
      (p : Provider) (e : Entry)
      → (conversations_of (poll_entry now server p e).notifications ≡ (
          if announced p.active_conversation_id e
          then some e.0 ∷ conversations_of p.notifications
          else conversations_of p.notifications))
        × ((poll_entry now server p e).active_conversation_id ≡ p.active_conversation_id)
  unfolding finish push
  poll_entry-told p (cid, g) = elim (Bool-cases (finished (cid, g))) [
    | inl over ↦ rw (poll_entry-finished p (cid, g) over, over) (ground arith)
    | inr awaited ↦
        let (_, same, _, active) = poll_entry-kept p (cid, g) awaited in
        rw awaited (ap conversations_of same, active)
  ]

  poll_entries-told :
      (es : Map PendingGeneration) (p : Provider)
      → conversations_of (foldl (poll_entry now server) p es).notifications
        ≡ told p.active_conversation_id (conversations_of p.notifications) es
  poll_entries-told [] p = refl
  poll_entries-told (e ∷ es) p =
      let (said, active) = poll_entry-told p e in
      poll_entries-told es (poll_entry now server p e) ∙ ap₂ (λ a cs. told a cs es) active said

  -- A round tells the user of each conversation whose answer is there and which is not on the
  -- screen, once each, and of nothing else.
  pub poll_round-told :
      (p : Provider)
      → conversations_of (poll_round now server p).notifications
        ≡ told p.active_conversation_id (conversations_of p.notifications) p.pending
  unfolding poll_round
  poll_round-told p = poll_entries-told p.pending p
