-- ===== src/Tools/Tests.antt =====
-- Runs of the page of the tools.
use recif.Base.{◌≡◌, false, none, some, [], ◌∷◌}
use recif.Text.{codes}
use recif.Tools.{http, cli, CustomTool, CustomToolForm, ToolsPage, mount}
use recif.Tools.Saved.{create, save, delete, acts, mount-acts}

abbrev form : CustomToolForm
form = record {
  name = codes "pods";
  kind = cli;
  description = [];
  endpoint = [];
  command = codes "kubectl get pods";
}

abbrev tool : CustomTool
tool = record {
  id = codes "custom-1";
  name = codes "a";
  kind = http;
  description = [];
  endpoint = none;
  command = none;
}

abbrev page : ToolsPage
page = record {
  custom_tools = tool ∷ [];
  stored = some (tool ∷ []);
  modal_open = false;
  editing_tool = none;
}

mount-acts_example :
    (mount (acts (create ∷ save 5 form ∷ delete (codes "custom-1") ∷ []) (mount page))).custom_tools
    ≡ (acts (create ∷ save 5 form ∷ delete (codes "custom-1") ∷ []) (mount page)).custom_tools
mount-acts_example = mount-acts (create ∷ save 5 form ∷ delete (codes "custom-1") ∷ []) page
