-- ===== src/Memory.antt =====
-- The page of the memories of agents, dashboard/src/app/(dashboard)/memory/page.tsx: its handlers up to
-- their requests and from the answers on, and what they do against a server.
pub mod Served
pub mod Counts
mod Tests
use recif.Base.{
  ℕ, Bool, true, false, not, ◌||◌, Option, none, some, List, [], ◌∷◌, filter, length, if◌then◌else◌,
}
use recif.Text.{Text, codes, text_eq, trim}
use recif.Json.{nonempty}

-- A memory as the page uses it.
pub record MemoryEntry : Type 0 where
  pub id : Text
  pub content : Text
  pub category : Text

-- `agents` are the names of the agents, `persistent` is none where the status is null.
pub record MemoryPage : Type 0 where
  pub agents : List Text
  pub selected_agent : Text
  pub memories : List MemoryEntry
  pub loading : Bool
  pub filter_by : Text
  pub search_query : Text
  pub is_searching : Bool
  pub persistent : Option Bool
  pub show_add : Bool
  pub new_content : Text
  pub new_category : Text

-- loadMemories up to its request, and from its answer on.
unfoldable pub begin_load_memories : MemoryPage → MemoryPage
begin_load_memories page =
    if nonempty page.selected_agent then record page { loading = true } else page

unfoldable pub memories_loaded : Option (List MemoryEntry) → MemoryPage → MemoryPage
memories_loaded none page = record page { memories = []; loading = false }
memories_loaded (some data') page = record page { memories = data'; loading = false }

-- fetchMemoryStatus; `none` is a request that throws.
unfoldable pub status_loaded : Option Bool → MemoryPage → MemoryPage
status_loaded s page = record page { persistent = s }

-- handleSearch up to its request, where its guard lets it pass, and from the answer on.
unfoldable pub may_search : MemoryPage → Bool
may_search page = if nonempty (trim page.search_query) then nonempty page.selected_agent else false

unfoldable pub begin_search : MemoryPage → MemoryPage
begin_search page = record page { is_searching = true; loading = true }

unfoldable pub search_answered : Option (List MemoryEntry) → MemoryPage → MemoryPage
search_answered none page = record page { loading = false }
search_answered (some results) page = record page { memories = results; loading = false }

-- handleAdd, before its request and when this has succeeded.
unfoldable pub may_add : MemoryPage → Bool
may_add page = if nonempty (trim page.new_content) then nonempty page.selected_agent else false

unfoldable pub memory_added : MemoryPage → MemoryPage
memory_added page = record page { new_content = []; show_add = false }

-- handleDelete when its request has succeeded.
unfoldable pub memory_deleted : Text → MemoryPage → MemoryPage
memory_deleted id page = record page {
  memories = filter (λ (m : MemoryEntry). not (text_eq m.id id)) page.memories;
}

-- What is shown, and how many there are of a category.
unfoldable pub filtered_memories : MemoryPage → List MemoryEntry
filtered_memories page =
    if text_eq page.filter_by (codes "all")
    then page.memories
    else filter (λ (m : MemoryEntry). text_eq m.category page.filter_by) page.memories

unfoldable pub count_of : Text → List MemoryEntry → ℕ
count_of category ms = length (filter (λ (m : MemoryEntry). text_eq m.category category) ms)

pub record MemoryStats : Type 0 where
  pub total : ℕ
  pub facts : ℕ
  pub preferences : ℕ
  pub instructions : ℕ
  pub observations : ℕ

unfoldable pub memory_stats : List MemoryEntry → MemoryStats
memory_stats ms = record {
  total = length ms;
  facts = count_of (codes "fact") ms;
  preferences = count_of (codes "preference") ms;
  instructions = count_of (codes "instruction") ms;
  observations = count_of (codes "observation") ms;
}

-- The server is a type of states, with the memories that it lists of an agent, those that a search
-- finds, whether an agent's memory is persistent, and storing and removing one, which are `none` where
-- they are refused.
pub record MemoryServer (S : Type 0) : Type 1 where
  pub listed : Text → S → List MemoryEntry
  pub found : Text → Text → S → List MemoryEntry
  pub is_persistent : Text → S → Bool
  pub stored : Text → Text → Text → S → Option S
  pub deleted : Text → Text → S → Option S

-- The Booleans say whether a request that reads is answered.
pub data MemoryAct : Type 0 where
  choose : Text → Bool → Bool → MemoryAct
  type_search : Text → MemoryAct
  search : Bool → MemoryAct
  clear : Bool → MemoryAct
  type_memory : Text → Text → MemoryAct
  add_memory : Bool → MemoryAct
  forget : Text → MemoryAct
  filter_on : Text → MemoryAct

module _ {S : Type 0} (server : MemoryServer S) where
  unfoldable pub load_memories : Bool → S → MemoryPage → MemoryPage
  load_memories reached s page =
      if nonempty page.selected_agent
      then memories_loaded (if reached then some (server.listed page.selected_agent s) else none)
          (begin_load_memories page)
      else page

  -- The effect that runs when another agent is selected.
  unfoldable pub agent_effect : Bool → Bool → S → MemoryPage → MemoryPage
  agent_effect reached told s page =
      let loaded =
        load_memories reached s (record page { search_query = []; is_searching = false }) in
      if nonempty page.selected_agent
      then status_loaded (if told then some (server.is_persistent page.selected_agent s) else none)
          loaded
      else loaded

  unfoldable pub choose_agent : Text → Bool → Bool → S → MemoryPage → MemoryPage
  choose_agent name reached told s page =
      if text_eq name page.selected_agent
      then page
      else agent_effect reached told s (record page { selected_agent = name })

  unfoldable pub handle_search : Bool → S → MemoryPage → MemoryPage
  handle_search reached s page =
      if may_search page
      then search_answered
          (if reached
            then some (server.found page.selected_agent (trim page.search_query) s)
            else none)
          (begin_search page)
      else page

  unfoldable pub clear_search : Bool → S → MemoryPage → MemoryPage
  clear_search reached s page =
      load_memories reached s (record page { search_query = []; is_searching = false })

  unfoldable pub handle_add_memory : Bool → MemoryPage × S → MemoryPage × S
  handle_add_memory reached (page, s) =
      if may_add page
      then elim (server.stored page.selected_agent (trim page.new_content) page.new_category s)
          as (λ _. MemoryPage × S) [
            | none ↦ (page, s)
            | some s' ↦ (load_memories reached s' (memory_added page), s')
          ]
      else (page, s)

  unfoldable pub handle_delete_memory : Text → MemoryPage × S → MemoryPage × S
  handle_delete_memory id (page, s) =
      if nonempty page.selected_agent
      then elim (server.deleted page.selected_agent id s) as (λ _. MemoryPage × S) [
        | none ↦ (page, s)
        | some s' ↦ (memory_deleted id page, s')
      ]
      else (page, s)

  -- An act whose requests are answered before the next.
  unfoldable pub memory_act : MemoryAct → MemoryPage × S → MemoryPage × S
  memory_act (choose name reached told) (page, s) = (choose_agent name reached told s page, s)
  memory_act (type_search t) (page, s) = (record page { search_query = t }, s)
  memory_act (search reached) (page, s) = (handle_search reached s page, s)
  memory_act (clear reached) (page, s) =
      if page.is_searching then (clear_search reached s page, s) else (page, s)
  memory_act (type_memory t category) (page, s) =
      (record page { new_content = t; new_category = category }, s)
  memory_act (add_memory reached) w = handle_add_memory reached w
  memory_act (forget id) w = handle_delete_memory id w
  memory_act (filter_on category) (page, s) = (record page { filter_by = category }, s)

  unfoldable pub memory_acts : List MemoryAct → MemoryPage × S → MemoryPage × S
  memory_acts [] w = w
  memory_acts (a ∷ as') w = memory_acts as' (memory_act a w)
