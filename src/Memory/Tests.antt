-- ===== src/Memory/Tests.antt =====
-- Runs of the page of memories.
use recif.Base.{◌≡◌, refl, inl, true, false, none, some, List, [], ◌∷◌}
use recif.Text.{Text, codes, text_eq, trim, trim_start, trim_end, is_space, cons_end}
use recif.Memory.{
  MemoryEntry, MemoryPage, MemoryServer, MemoryAct, choose, type_search, search, clear, forget,
  memory_acts, memory_act, handle_delete_memory, handle_search, may_search, choose_agent,
  agent_effect, status_loaded, load_memories, memories_loaded, begin_load_memories, begin_search,
  clear_search, memory_deleted, search_answered,
}
use recif.Memory.Served.{Removes, without, memory_acts-listed}

abbrev entry : Text → Text → MemoryEntry
entry id category = record { id = id; content = codes "likes tea"; category = category }

abbrev two_entries : List MemoryEntry
two_entries = entry (codes "m1") (codes "fact") ∷ entry (codes "m2") (codes "preference") ∷ []

-- A server of one agent.
abbrev one_agent : MemoryServer (List MemoryEntry)
one_agent = record {
  listed = λ agent ms. ms;
  found = λ agent query ms. [];
  is_persistent = λ agent ms. true;
  stored = λ agent content category ms. some (entry (codes "m3") category ∷ ms);
  deleted = λ agent id ms. some (without id ms);
}

one_agent-Removes : Removes one_agent
one_agent-Removes agent id s s' h = cc h

abbrev first_page : MemoryPage
first_page = record {
  agents = codes "helper" ∷ [];
  selected_agent = [];
  memories = [];
  loading = false;
  filter_by = codes "all";
  search_query = [];
  is_searching = false;
  persistent = none;
  show_add = false;
  new_content = [];
  new_category = codes "observation";
}

abbrev a_visit : List MemoryAct
a_visit =
    choose (codes "helper") true true
    ∷ type_search (codes "tea")
    ∷ search true
    ∷ clear true
    ∷ forget (codes "m1")
    ∷ []

memory_acts-listed_example :
    (memory_acts one_agent a_visit (first_page, two_entries)).0.memories
    ≡ (memory_acts one_agent a_visit (first_page, two_entries)).1
unfolding memory_acts text_eq trim trim_start trim_end is_space cons_end memory_act
    handle_delete_memory handle_search may_search choose_agent agent_effect status_loaded
    load_memories memories_loaded begin_load_memories begin_search clear_search memory_deleted
    search_answered
memory_acts-listed_example =
    memory_acts-listed one_agent one_agent-Removes a_visit (first_page, two_entries)
      (refl, (refl, (refl, (refl, (refl, tt))))) (inl refl) refl refl
