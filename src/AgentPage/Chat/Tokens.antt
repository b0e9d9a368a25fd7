-- ===== src/AgentPage/Chat/Tokens.antt =====
-- Chunks of a stream of tokens, where no other stream runs.
use recif.Base.{
  ℕ, ◌≡◌, refl, sym, ap, ◌∙◌, true, false, Option, Option-cases, inl, inr, some, List, [], ◌∷◌,
  ◌++◌, map, map_last, foldl, append-nil, append_assoc, ◌==◌, All, arith,
}
use recif.Text.{Text, codes, strip_prefix}
use recif.Text.Regions.{Free}
use recif.Chat.Stream.{split_lines}
use recif.Chat.Framing.{concat, frames, split_lines-frame}
use recif.Chat.Lines.{read_lines}
use recif.AgentPage.Chat.{
  ChatEntry, Running, AgentChat, Payload, append_token, take_token, take_done, take_conversation,
  take_line, read_part, set_buffer, chunk, on_event, on_events, is_active,
}

append_token-twice :
    (t u : Text) (m : ChatEntry) → append_token u (append_token t m) ≡ append_token (t ++ u) m
unfolding append_token
append_token-twice t u m = ground (arith, append_assoc m.content t u)

-- The last entry rewritten twice.
map_last-twice :
    (t u : Text) (ms : List ChatEntry)
    → map_last (append_token u) (map_last (append_token t) ms) ≡ map_last (append_token (t ++ u)) ms
map_last-twice t u [] = refl
map_last-twice t u (m ∷ []) = ap (λ x. x ∷ []) (append_token-twice t u m)
map_last-twice t u (m ∷ n ∷ []) = ap (λ x. m ∷ x ∷ []) (append_token-twice t u n)
map_last-twice t u (m ∷ n ∷ o ∷ ms) = ap (m ∷◌) (map_last-twice t u (n ∷ o ∷ ms))

map_last-nil : (ms : List ChatEntry) → map_last (append_token []) ms ≡ ms
unfolding append_token
map_last-nil [] = refl
map_last-nil (m ∷ []) = ap (λ x. x ∷ []) (ground (arith, append-nil m.content))
map_last-nil (m ∷ n ∷ ms) = ap (m ∷◌) (map_last-nil (n ∷ ms))

abbrev pub with_text : Text → AgentChat → AgentChat
with_text t chat = record chat { messages = map_last (append_token t) chat.messages }

-- The chat with one stream that runs.
abbrev pub reading : Running → AgentChat → AgentChat
reading r chat = record chat { running = r ∷ [] }

abbrev pub buffered : ℕ → Option Text → Text → Running
buffered c cid buffer = record { controller = c; active_cid = cid; buffer = buffer }

-- The payload of a token alone.
abbrev pub token_payload : Text → Payload
token_payload t = record { token = t; done = false; conversation_id = [] }

module _ (parse : Text → Option Payload) (cid : Option Text) where
  take_line-reading :
      (r : Running) (chat : AgentChat) (line : Text)
      → take_line parse cid (reading r chat) line ≡ reading r (take_line parse cid chat line)
  unfolding take_line take_token take_done take_conversation
  take_line-reading r chat line = elim (Option-cases (strip_prefix (codes "data: ") line)) [
    | inl other ↦ rw (take_line, other) refl
    | inr (payload, e) ↦ elim (Option-cases (parse payload)) [
      | inl bad ↦ rw (take_line, e, bad) refl
      | inr (p, good) ↦ rw (take_line, e, good) (ground arith)
    ]
  ]

  take_lines-reading :
      (r : Running) (chat : AgentChat) (lines : List Text)
      → foldl (take_line parse cid) (reading r chat) lines
        ≡ reading r (foldl (take_line parse cid) chat lines)
  take_lines-reading r chat [] = refl
  take_lines-reading r chat (l ∷ ls) =
      ap (λ x. foldl (take_line parse cid) x ls) (take_line-reading r chat l)
      ∙ take_lines-reading r (take_line parse cid chat l) ls

  -- One chunk of the only stream.
  on_chunk :
      (c : ℕ) (buffer t : Text) (chat : AgentChat)
      → on_event parse (chunk c t) (reading (buffered c cid buffer) chat)
        ≡ reading
            (buffered c cid (read_lines (take_line parse cid) (buffer, chat) t).0)
            (read_lines (take_line parse cid) (buffer, chat) t).1
  unfolding on_event read_part read_lines set_buffer
  on_chunk c buffer t chat =
      let lines = (split_lines (buffer ++ t)).0 in
      let same : (c == c) ≡ true = ground arith in
      rw (on_event, same)
        (rw (take_lines-reading (buffered c cid buffer) chat lines, set_buffer, same) refl)

  pub on_chunks :
      (c : ℕ) (ts : List Text) (buffer : Text) (chat : AgentChat)
      → on_events parse (map (chunk c) ts) (reading (buffered c cid buffer) chat)
        ≡ reading
            (buffered c cid (foldl (read_lines (take_line parse cid)) (buffer, chat) ts).0)
            (foldl (read_lines (take_line parse cid)) (buffer, chat) ts).1
  unfolding on_events
  on_chunks c [] buffer chat = refl
  on_chunks c (t ∷ ts) buffer chat =
      ap (on_events parse (map (chunk c) ts)) (on_chunk c buffer t chat)
      ∙ on_chunks c ts (read_lines (take_line parse cid) (buffer, chat) t).0
          (read_lines (take_line parse cid) (buffer, chat) t).1

  -- The server writes a token as a payload without a line feed, which is read back.
  abbrev pub Written : (Text → Text) → List Text → Type 0
  Written write = All (λ t. (parse (write t) ≡ some (token_payload t)) × Free 10 (write t))

  take_line-token :
      (chat : AgentChat) (payload t : Text)
      → is_active cid chat ≡ true
      → parse payload ≡ some (token_payload t)
      → take_line parse cid chat (codes "data: " ++ payload) ≡ with_text t chat
  unfolding take_line strip_prefix take_token take_done take_conversation
  take_line-token chat payload [] active good =
      rw good (ap (λ ms. record chat { messages = ms }) (sym (map_last-nil chat.messages)))
  take_line-token chat payload (c ∷ t) active good = rw good (ground (arith, active))

  take_line-nil : (chat : AgentChat) → take_line parse cid chat [] ≡ chat
  unfolding take_line strip_prefix
  take_line-nil chat = refl

  pub take_frames :
      (write : Text → Text) (tokens : List Text) (chat : AgentChat)
      → is_active cid chat ≡ true
      → Written write tokens
      → ((split_lines (frames (map write tokens))).1 ≡ [])
        × (foldl (take_line parse cid) chat (split_lines (frames (map write tokens))).0
            ≡ with_text (concat tokens) chat)
  unfolding split_lines
  take_frames write [] chat active _ =
      (refl, ap (λ ms. record chat { messages = ms }) (sym (map_last-nil chat.messages)))
  take_frames write (t ∷ ts) chat active ((good, free), rest) =
      let (clean, same) = take_frames write ts (with_text t chat) active rest in
      rw (split_lines-frame (write t) (frames (map write ts)) free) (
        clean,
        ap (λ x. foldl (take_line parse cid) x (split_lines (frames (map write ts))).0)
              (ap (λ x. take_line parse cid x []) (take_line-token chat (write t) t active good)
                ∙ take_line-nil (with_text t chat))
            ∙ same
            ∙ ap (λ ms. record chat { messages = ms }) (map_last-twice t (concat ts) chat.messages),
      )
