-- ===== src/Components/Palette.antt =====
-- The command palette, dashboard/src/components/custom/command-palette.tsx. A key sees the state that
-- was shown when it was pressed.
pub mod Range
use recif.Base.{
  ℕ, ◌+◌, ◌-◌, ◌<◌, ◌≡◌, refl, ap, ◌∙◌, Bool, true, false, not, ◌&&◌, ◌||◌, Bool-cases,
  Option-cases, inl, inr, Option, none, some, List, [], ◌∷◌, ◌++◌, filter, length, get_elem?, min,
  ◌==◌, if◌then◌else◌, arith,
}
use recif.Text.{Text, codes, includes}

pub record Command : Type 0 where
  pub label : Text
  pub path : Text
  pub keywords : Text

unfoldable pub commands : List Command
commands =
    record {
      label = codes "Chat";
      path = codes "/chat";
      keywords = codes "chat conversation message";
    }
    ∷ record {
      label = codes "Agents";
      path = codes "/agents";
      keywords = codes "list agents fleet overview grid";
    }
    ∷ record {
      label = codes "Create Agent";
      path = codes "/agents/new";
      keywords = codes "create new wizard";
    }
    ∷ record {
      label = codes "Tools";
      path = codes "/tools";
      keywords = codes "tools integrations http cli mcp builtin";
    }
    ∷ record {
      label = codes "Create Tool";
      path = codes "/tools/new";
      keywords = codes "create new tool register";
    }
    ∷ record {
      label = codes "Knowledge Base";
      path = codes "/knowledge";
      keywords = codes "knowledge base kb documents rag embedding";
    }
    ∷ record {
      label = codes "Evaluations";
      path = codes "/evaluations";
      keywords = codes "eval test quality";
    }
    ∷ record {
      label = codes "Settings";
      path = codes "/settings";
      keywords = codes "settings team config";
    }
    ∷ []

-- `selected` is none for the index -1, and `visited` lists the paths of router.push, the latest last.
pub record Palette : Type 0 where
  pub is_open : Bool
  pub query : Text
  pub selected : Option ℕ
  pub visited : List Text

pub data Key : Type 0 where
  toggle escape arrow_down arrow_up enter : Key

-- What the user does: a key, another query, a click on a result or beside the palette.
pub data PaletteEvent : Type 0 where
  key : Key → PaletteEvent
  type_query : Text → PaletteEvent
  pick : Command → PaletteEvent
  click_beside : PaletteEvent

unfoldable pub go_to : Command → Palette → Palette
go_to c p = record p { visited = p.visited ++ c.path ∷ []; is_open = false }

-- `filtered[selectedIndex]`
unfoldable pub command_at : Option ℕ → List Command → Option Command
command_at none cs = none
command_at (some i) cs = get_elem? cs i

-- `Math.min(i + 1, n - 1)` and `Math.max(i - 1, 0)`
unfoldable pub index_down : ℕ → Option ℕ → Option ℕ
index_down n none = if n == 0 then none else some 0
index_down n (some i) = if n == 0 then none else some (min (i + 1) (n - 1))

unfoldable pub index_up : Option ℕ → Option ℕ
index_up none = some 0
index_up (some i) = some (i - 1)

-- `lower` is toLowerCase.
module _ (lower : Text → Text) where
  unfoldable pub filtered : Text → List Command
  filtered query =
      filter
        (λ (c : Command).
          includes (lower query) (lower c.label) || includes (lower query) c.keywords)
        commands

  -- handleKeyDown
  unfoldable pub handle_key_down : Key → Palette → Palette
  handle_key_down toggle p = record p { is_open = not p.is_open; query = []; selected = some 0 }
  handle_key_down escape p = if p.is_open then record p { is_open = false } else p
  handle_key_down arrow_down p =
      if p.is_open
      then record p { selected = index_down (length (filtered p.query)) p.selected }
      else p
  handle_key_down arrow_up p = if p.is_open then record p { selected = index_up p.selected } else p
  handle_key_down enter p =
      if p.is_open
      then elim (command_at p.selected (filtered p.query)) [ none ↦ p | some c ↦ go_to c p ]
      else p

  unfoldable pub on_palette : PaletteEvent → Palette → Palette
  on_palette (key k) p = handle_key_down k p
  on_palette (type_query q) p = if p.is_open then record p { query = q; selected = some 0 } else p
  on_palette (pick c) p = if p.is_open then go_to c p else p
  on_palette click_beside p = if p.is_open then record p { is_open = false } else p

  unfoldable pub on_palette_events : List PaletteEvent → Palette → Palette
  on_palette_events [] p = p
  on_palette_events (e ∷ es) p = on_palette_events es (on_palette e p)
