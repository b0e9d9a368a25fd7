-- ===== src/Tools/Saved.antt =====
-- The list of the user's tools and what is stored of it.
use recif.Base.{ℕ, ◌≡◌, refl, sym, ap, false, Bool-cases, inl, inr, List, [], ◌∷◌, map}
use recif.Text.{Text, text_eq}
use recif.Text.Equality.{text_eq_sound}
use recif.Tools.{
  CustomTool, CustomToolForm, ToolsPage, load_custom_tools, save_custom_tools, mount, open_create,
  open_edit, merge, replace_first, handle_save_tool, handle_delete_tool,
}

-- What the user does on the page of the tools.
pub data Act : Type 0 where
  create : Act
  edit : CustomTool → Act
  save : ℕ → CustomToolForm → Act
  delete : Text → Act

unfoldable pub act : Act → ToolsPage → ToolsPage
act create page = open_create page
act (edit tool) page = open_edit tool page
act (save now form) page = handle_save_tool now form page
act (delete id) page = handle_delete_tool id page

unfoldable pub acts : List Act → ToolsPage → ToolsPage
acts [] page = page
acts (a ∷ as') page = acts as' (act a page)

-- The page shows what is stored.
abbrev pub IsSaved : ToolsPage → Type 0
IsSaved page = load_custom_tools page.stored ≡ page.custom_tools

act-IsSaved : (a : Act) (page : ToolsPage) → IsSaved page → IsSaved (act a page)
unfolding act open_create open_edit handle_save_tool handle_delete_tool save_custom_tools
    load_custom_tools
act-IsSaved create page h = h
act-IsSaved (edit tool) page h = h
act-IsSaved (save now form) page h = refl
act-IsSaved (delete id) page h = refl

-- Whatever the user creates, edits and deletes once the page is mounted, what a reload gives is the
-- list that is shown.
pub mount-acts :
    (as' : List Act) (page : ToolsPage)
    → (mount (acts as' (mount page))).custom_tools ≡ (acts as' (mount page)).custom_tools
unfolding mount acts
mount-acts as' page = saved as' (record page { custom_tools = load_custom_tools page.stored }) refl
  where
    saved : (as' : List Act) (page : ToolsPage) → IsSaved page → IsSaved (acts as' page)
    saved [] page h = h
    saved (a ∷ as') page h = saved as' (act a page) (act-IsSaved a page h)

ids-replace_first :
    (tool : CustomTool) (ts : List CustomTool)
    → map (λ (t : CustomTool). t.id) (replace_first tool.id tool ts)
      ≡ map (λ (t : CustomTool). t.id) ts
unfolding replace_first
ids-replace_first tool [] = refl
ids-replace_first tool (t ∷ ts) = elim (Bool-cases (text_eq t.id tool.id)) [
  | inl found ↦
      rw found
        (ap (λ id. id ∷ map (λ (u : CustomTool). u.id) ts) (sym (text_eq_sound t.id tool.id found)))
  | inr passed ↦ rw passed (ap (t.id ∷◌) (ids-replace_first tool ts))
]

-- Saving a tool that is edited keeps the tools, their order and their identifiers, and closes the
-- dialogue.
pub handle_save_tool-edit :
    (now : ℕ) (form : CustomToolForm) (tool : CustomTool) (page : ToolsPage)
    → (map (λ (t : CustomTool). t.id) (handle_save_tool now form (open_edit tool page)).custom_tools
        ≡ map (λ (t : CustomTool). t.id) page.custom_tools)
      × ((handle_save_tool now form (open_edit tool page)).modal_open ≡ false)
unfolding handle_save_tool open_edit save_custom_tools
handle_save_tool-edit now form tool page =
    (ids-replace_first (merge tool form) page.custom_tools, refl)
