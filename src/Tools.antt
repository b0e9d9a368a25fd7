-- ===== src/Tools.antt =====
-- The tools of the user: the list that dashboard/src/app/(dashboard)/tools/page.tsx keeps in
-- localStorage, and the parameters of a new tool in dashboard/src/app/(dashboard)/tools/new/page.tsx.
pub mod Saved
mod Tests
use recif.Base.{
  ℕ, ◌==◌, Bool, true, false, not, Option, none, some, List, [], ◌∷◌, ◌++◌, filter, any,
  if◌then◌else◌,
}
use recif.Text.{Text, codes, text_eq, trim}
use recif.Text.Decimal.{decimal}
use recif.Json.{nonempty}
use recif.Knowledge.{update_at, remove_at}

pub data ToolKind : Type 0 where
  http cli : ToolKind

pub record CustomTool : Type 0 where
  pub id : Text
  pub name : Text
  pub kind : ToolKind
  pub description : Text
  pub endpoint : Option Text
  pub command : Option Text

pub record CustomToolForm : Type 0 where
  pub name : Text
  pub kind : ToolKind
  pub description : Text
  pub endpoint : Text
  pub command : Text

-- The page, and what localStorage has under LS_KEY: the list that JSON.stringify wrote there.
pub record ToolsPage : Type 0 where
  pub custom_tools : List CustomTool
  pub stored : Option (List CustomTool)
  pub modal_open : Bool
  pub editing_tool : Option CustomTool

-- loadCustomTools; what is stored was written by saveCustomTools, so that it parses.
unfoldable pub load_custom_tools : Option (List CustomTool) → List CustomTool
load_custom_tools none = []
load_custom_tools (some tools) = tools

unfoldable pub save_custom_tools : List CustomTool → ToolsPage → ToolsPage
save_custom_tools tools page = record page { stored = some tools }

-- The page once it is mounted.
unfoldable pub mount : ToolsPage → ToolsPage
mount page = record page { custom_tools = load_custom_tools page.stored }

unfoldable pub open_create : ToolsPage → ToolsPage
open_create page = record page { editing_tool = none; modal_open = true }

unfoldable pub open_edit : CustomTool → ToolsPage → ToolsPage
open_edit tool page = record page { editing_tool = some tool; modal_open = true }

-- `t || undefined`
abbrev pub or_undefined : Text → Option Text
or_undefined t = if nonempty t then some t else none

-- `{ ...editingTool, ...form }`
abbrev pub merge : CustomTool → CustomToolForm → CustomTool
merge tool form = record {
  id = tool.id;
  name = form.name;
  kind = form.kind;
  description = form.description;
  endpoint = some form.endpoint;
  command = some form.command;
}

-- The first tool with the id is replaced, by findIndex.
unfoldable pub replace_first : Text → CustomTool → List CustomTool → List CustomTool
replace_first id tool [] = []
replace_first id tool (t ∷ ts) =
    let rest = replace_first id tool ts in if text_eq t.id id then tool ∷ ts else t ∷ rest

abbrev pub new_tool : ℕ → CustomToolForm → CustomTool
new_tool now form = record {
  id = codes "custom-" ++ decimal now;
  name = form.name;
  kind = form.kind;
  description = form.description;
  endpoint = or_undefined form.endpoint;
  command = or_undefined form.command;
}

-- handleSaveTool at the time `now`
unfoldable pub handle_save_tool : ℕ → CustomToolForm → ToolsPage → ToolsPage
handle_save_tool now form page =
    let updated : List CustomTool = elim page.editing_tool [
      | some tool ↦ replace_first tool.id (merge tool form) page.custom_tools
      | none ↦ page.custom_tools ++ new_tool now form ∷ []
    ] in
    record (save_custom_tools updated (record page { custom_tools = updated })) {
      modal_open = false;
      editing_tool = none;
    }

unfoldable pub handle_delete_tool : Text → ToolsPage → ToolsPage
handle_delete_tool id page =
    let updated = filter (λ (t : CustomTool). not (text_eq t.id id)) page.custom_tools in
    save_custom_tools updated (record page { custom_tools = updated })

-- A parameter of a tool, and the field that updateParameter sets.
pub record Parameter : Type 0 where
  pub name : Text
  pub kind : Text
  pub description : Text
  pub required : Bool

pub data ParameterField : Type 0 where
  set_name set_kind set_description : Text → ParameterField
  set_required : Bool → ParameterField

abbrev pub empty_param : Parameter
empty_param = record { name = []; kind = codes "string"; description = []; required = false }

unfoldable pub set_field : ParameterField → Parameter → Parameter
set_field (set_name v) p = record p { name = v }
set_field (set_kind v) p = record p { kind = v }
set_field (set_description v) p = record p { description = v }
set_field (set_required v) p = record p { required = v }

unfoldable pub update_parameter : ℕ → ParameterField → List Parameter → List Parameter
update_parameter index field = update_at index (set_field field) 0

unfoldable pub remove_parameter : ℕ → List Parameter → List Parameter
remove_parameter index = remove_at index 0

unfoldable pub add_parameter : List Parameter → List Parameter
add_parameter params = params ++ empty_param ∷ []

pub data ToolType : Type 0 where
  http_tool cli_tool mcp_tool : ToolType

pub record ToolWizard : Type 0 where
  pub step : ℕ
  pub name : Text
  pub tool_type : ToolType
  pub endpoint : Text
  pub binary_path : Text
  pub mcp_endpoint : Text

-- canProceed of the new tool
unfoldable pub can_proceed_tool : ToolWizard → Bool
can_proceed_tool w =
    if w.step == 0
    then nonempty (trim w.name)
    else if w.step == 1
    then elim w.tool_type [
      | http_tool ↦ nonempty (trim w.endpoint)
      | cli_tool ↦ nonempty (trim w.binary_path)
      | mcp_tool ↦ nonempty (trim w.mcp_endpoint)
    ]
    else true
