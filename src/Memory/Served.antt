-- ===== src/Memory/Served.antt =====
-- The memories that are shown are those of the server.
use recif.Base.{
  ◌≡◌, ◌⊎◌, refl, sym, ap, ◌∙◌, inl, inr, Bool, true, false, not, Option, Option-cases, none, some,
  List, [], ◌∷◌, filter, All, if◌then◌else◌,
}
use recif.Text.{Text, text_eq, trim}
use recif.Json.{nonempty}
use recif.Memory.{
  MemoryEntry, MemoryPage, MemoryServer, MemoryAct, choose, type_search, search, clear, type_memory,
  add_memory, forget, filter_on, memories_loaded, begin_load_memories, status_loaded, may_search,
  may_add, begin_search, search_answered, memory_added, memory_deleted, load_memories, agent_effect,
  choose_agent, handle_search, clear_search, handle_add_memory, handle_delete_memory, memory_act,
  memory_acts,
}

-- The memories without the one that was removed.
abbrev pub without : Text → List MemoryEntry → List MemoryEntry
without id = filter (λ (m : MemoryEntry). not (text_eq m.id id))

-- A server that removes a memory of an agent lists the others as before.
abbrev pub Removes : {S : Type 0} → MemoryServer S → Type 0
Removes {S} server =
    (agent id : Text) (s s' : S)
    → server.deleted agent id s ≡ some s'
    → server.listed agent s' ≡ without id (server.listed agent s)

-- The request of an act for the list of memories is answered, if it makes one.
abbrev pub list_is_read : MemoryAct → Bool
list_is_read (choose _ reached _) = reached
list_is_read (clear reached) = reached
list_is_read (add_memory reached) = reached
list_is_read _ = true

module _ {S : Type 0} (server : MemoryServer S) where
  -- No agent is selected, or the results of a search are shown, or the memories are those that the
  -- server lists.
  abbrev pub IsListed : MemoryPage → S → Type 0
  IsListed page s =
      (nonempty page.selected_agent ≡ false)
      ⊎ ((page.is_searching ≡ true) ⊎ (page.memories ≡ server.listed page.selected_agent s))

  if-IsListed :
      (b : Bool) (v w : MemoryPage) (s : S)
      → (b ≡ true → IsListed v s)
      → (b ≡ false → IsListed w s)
      → IsListed (if b then v else w) s
  if-IsListed true v w s h k = h refl
  if-IsListed false v w s h k = k refl

  load_memories-IsListed :
      (s : S) (page : MemoryPage) → IsListed (load_memories server true s page) s
  unfolding load_memories memories_loaded begin_load_memories
  load_memories-IsListed s page =
      if-IsListed (nonempty page.selected_agent) _ page s (λ named. rw named (inr (inr refl))) inl

  status_loaded-IsListed :
      (told : Option Bool) (s : S) (page : MemoryPage)
      → IsListed page s
      → IsListed (status_loaded told page) s
  unfolding status_loaded
  status_loaded-IsListed told s page h = h

  choose_agent-IsListed :
      (name : Text) (told : Bool) (s : S) (page : MemoryPage)
      → IsListed page s
      → IsListed (choose_agent server name true told s page) s
  unfolding choose_agent agent_effect
  choose_agent-IsListed name told s page h =
      let chosen = record page { selected_agent = name; search_query = []; is_searching = false } in
      if-IsListed (text_eq name page.selected_agent) page _ s (λ _. h)
        (λ _.
          if-IsListed (nonempty name) _ _ s
            (λ _. status_loaded-IsListed _ s _ (load_memories-IsListed s chosen))
            (λ _. load_memories-IsListed s chosen))

  handle_search-IsListed :
      (reached : Bool) (s : S) (page : MemoryPage)
      → IsListed page s
      → IsListed (handle_search server reached s page) s
  unfolding handle_search search_answered begin_search
  handle_search-IsListed true s page h =
      if-IsListed (may_search page) _ page s (λ _. inr (inl refl)) (λ _. h)
  handle_search-IsListed false s page h =
      if-IsListed (may_search page) _ page s (λ _. inr (inl refl)) (λ _. h)

  -- A pair of a page and a server.
  abbrev pub Lists : MemoryPage × S → Type 0
  Lists w = IsListed w.0 w.1

  if-Lists : (b : Bool) (v w : MemoryPage × S) → Lists v → Lists w → Lists (if b then v else w)
  if-Lists true v w h k = h
  if-Lists false v w h k = k

  handle_add_memory-Lists :
      (page : MemoryPage) (s : S)
      → IsListed page s
      → Lists (handle_add_memory server true (page, s))
  unfolding handle_add_memory
  handle_add_memory-Lists page s h =
      if-Lists (may_add page) _ (page, s)
        (answered (server.stored page.selected_agent (trim page.new_content) page.new_category s)) h
    where
      answered :
          (o : Option S)
          → Lists (elim o as (λ _. MemoryPage × S) [
            | none ↦ (page, s)
            | some s' ↦ (load_memories server true s' (memory_added page), s')
          ])
      answered none = h
      answered (some s') = load_memories-IsListed s' (memory_added page)

  memory_deleted-IsListed :
      (id : Text) (page : MemoryPage) (s s' : S)
      → server.listed page.selected_agent s' ≡ without id (server.listed page.selected_agent s)
      → IsListed page s
      → IsListed (memory_deleted id page) s'
  unfolding memory_deleted
  memory_deleted-IsListed id page s s' removed (inl unnamed) = inl unnamed
  memory_deleted-IsListed id page s s' removed (inr (inl searching)) = inr (inl searching)
  memory_deleted-IsListed id page s s' removed (inr (inr same)) =
      inr (inr (ap (without id) same ∙ sym removed))

  module _ (removes : Removes server) where
    handle_delete_memory-Lists :
        (id : Text) (page : MemoryPage) (s : S)
        → IsListed page s
        → Lists (handle_delete_memory server id (page, s))
    unfolding handle_delete_memory
    handle_delete_memory-Lists id page s h =
        if-Lists (nonempty page.selected_agent) _ (page, s)
          (elim (Option-cases (server.deleted page.selected_agent id s)) [
            | inl refused ↦ rw refused h
            | inr (s', done) ↦
                rw done (
                  memory_deleted-IsListed id page s s' (removes page.selected_agent id s s' done) h)
          ])
          h

    memory_act-Lists :
        (a : MemoryAct) (page : MemoryPage) (s : S)
        → list_is_read a ≡ true
        → IsListed page s
        → Lists (memory_act server a (page, s))
    unfolding memory_act clear_search
    memory_act-Lists (choose name true told) page s _ h = choose_agent-IsListed name told s page h
    memory_act-Lists (choose name false told) page s failed h = cc failed
    memory_act-Lists (type_search t) page s _ h = h
    memory_act-Lists (search reached) page s _ h = handle_search-IsListed reached s page h
    memory_act-Lists (clear true) page s _ h =
        if-Lists page.is_searching _ (page, s) (load_memories-IsListed s _) h
    memory_act-Lists (clear false) page s failed h = cc failed
    memory_act-Lists (type_memory t category) page s _ h = h
    memory_act-Lists (add_memory true) page s _ h = handle_add_memory-Lists page s h
    memory_act-Lists (add_memory false) page s failed h = cc failed
    memory_act-Lists (forget id) page s _ h = handle_delete_memory-Lists id page s h
    memory_act-Lists (filter_on category) page s _ h = h

    memory_acts-Lists :
        (as' : List MemoryAct) (w : MemoryPage × S)
        → All (λ a. list_is_read a ≡ true) as'
        → Lists w
        → Lists (memory_acts server as' w)
    unfolding memory_acts
    memory_acts-Lists [] w _ h = h
    memory_acts-Lists (a ∷ as') (page, s) (one, rest) h =
        memory_acts-Lists as' (memory_act server a (page, s)) rest (memory_act-Lists a page s one h)

    -- Whatever agents are chosen, memories searched, added and removed, each request answered or
    -- refused before the next act, and each request for the list of memories answered with it: where
    -- an agent is selected and no search is shown, the page has exactly the memories that the server
    -- lists for this agent. The server is assumed to remove a memory of an agent without touching
    -- the others, and the page to be in this state at first.
    pub memory_acts-listed :
        (as' : List MemoryAct) (w : MemoryPage × S)
        → All (λ a. list_is_read a ≡ true) as'
        → Lists w
        → nonempty (memory_acts server as' w).0.selected_agent ≡ true
        → (memory_acts server as' w).0.is_searching ≡ false
        → (memory_acts server as' w).0.memories
          ≡ server.listed (memory_acts server as' w).0.selected_agent (memory_acts server as' w).1
    memory_acts-listed as' w read h named quiet = elim (memory_acts-Lists as' w read h) [
      | inl unnamed ↦ absurd (cc (unnamed, named))
      | inr (inl searching) ↦ absurd (cc (searching, quiet))
      | inr (inr shown) ↦ shown
    ]
