-- ===== src/Skills.antt =====
-- The page of the skills, dashboard/src/app/(dashboard)/skills/page.tsx: its skills and agents, the
-- dialogue in which a skill is created, edited or cloned, and the calls that these end in.
pub mod Editor
pub mod Panel
pub mod Modal
pub mod Toggled
pub mod Import
mod Tests
use recif.Base.{
  Bool, true, false, Option, none, some, List, [], ◌∷◌, ◌++◌, not, filter, any, if◌then◌else◌,
}
use recif.Text.{Text, codes, text_eq, trim}
use recif.Json.{nonempty}
use recif.Maps.{Map}

-- `xs.includes(x)` on an array of strings
unfoldable pub contains : Text → List Text → Bool
contains k ks = any (text_eq k) ks

-- A skill; an empty text, array or object stands for a field that is missing or empty.
pub record Skill : Type 0 where
  pub id : Text
  pub name : Text
  pub description : Text
  pub category : Text
  pub instructions : Text
  pub version : Text
  pub author : Text
  pub source : Text
  pub compatibility : List Text
  pub channel_filter : List Text
  pub tools : List Text
  pub scripts : Map Text
  pub references : Map Text
  pub assets : Map Text
  pub builtin : Bool

pub record SkillForm : Type 0 where
  pub name : Text
  pub description : Text
  pub category : Text
  pub channel_filter : List Text
  pub instructions : Text
  pub tools : List Text
  pub version : Text
  pub author : Text
  pub source : Text
  pub compatibility : List Text
  pub scripts : Map Text
  pub references : Map Text
  pub assets : Map Text

unfoldable pub empty_form : SkillForm
empty_form = record {
  name = [];
  description = [];
  category = codes "general";
  channel_filter = [];
  instructions = [];
  tools = [];
  version = codes "1.0.0";
  author = [];
  source = [];
  compatibility = [];
  scripts = [];
  references = [];
  assets = [];
}

-- The part of getInitialFormData on a skill that is edited, and on one that is cloned.
unfoldable pub edit_form : Skill → SkillForm
edit_form s = record {
  name = s.name;
  description = s.description;
  category = s.category;
  channel_filter = s.channel_filter;
  instructions = s.instructions;
  tools = s.tools;
  version = if nonempty s.version then s.version else codes "1.0.0";
  author = s.author;
  source = s.source;
  compatibility = s.compatibility;
  scripts = s.scripts;
  references = s.references;
  assets = s.assets;
}

unfoldable pub clone_form : Skill → SkillForm
clone_form s = record {
  name = s.name ++ codes " (copy)";
  description = s.description;
  category = s.category;
  channel_filter = s.channel_filter;
  instructions = s.instructions;
  tools = s.tools;
  version = if nonempty s.version then s.version else codes "1.0.0";
  author = s.author;
  source = s.source;
  compatibility = s.compatibility;
  scripts = s.scripts;
  references = s.references;
  assets = s.assets;
}

-- toggleTool and toggleChannel
unfoldable pub toggled : Text → List Text → List Text
unfolding contains
toggled t ts = if contains t ts then filter (λ x. not (text_eq x t)) ts else ts ++ t ∷ []

unfoldable pub toggle_skill_tool : Text → SkillForm → SkillForm
toggle_skill_tool t f = record f { tools = toggled t f.tools }

unfoldable pub toggle_channel : Text → SkillForm → SkillForm
toggle_channel ch f = record f { channel_filter = toggled ch f.channel_filter }

-- An agent as this page uses it.
pub record SkilledAgent : Type 0 where
  pub id : Text
  pub name : Text
  pub skills : List Text

pub record SkillsPage : Type 0 where
  pub skills : List Skill
  pub agents : List SkilledAgent
  pub loading : Bool
  pub modal_open : Bool
  pub editing_skill : Option Skill
  pub clone_source : Option Skill
  pub detail_skill : Option Skill

unfoldable pub builtin_skills : SkillsPage → List Skill
builtin_skills page = filter (λ (s : Skill). s.builtin) page.skills

unfoldable pub custom_skills : SkillsPage → List Skill
custom_skills page = filter (λ (s : Skill). not s.builtin) page.skills

-- loadSkills up to its request, and from its answer on, which is `none` where the request throws.
unfoldable pub begin_load_skills : SkillsPage → SkillsPage
begin_load_skills page = record page { loading = true }

unfoldable pub skills_loaded : Option (List Skill) → SkillsPage → SkillsPage
skills_loaded none page = record page { skills = []; loading = false }
skills_loaded (some found) page = record page { skills = found; loading = false }

unfoldable pub open_skill_create : SkillsPage → SkillsPage
open_skill_create page = record page {
  editing_skill = none;
  clone_source = none;
  modal_open = true;
}

unfoldable pub open_skill_edit : Skill → SkillsPage → SkillsPage
open_skill_edit s page = record page {
  editing_skill = some s;
  clone_source = none;
  detail_skill = none;
  modal_open = true;
}

unfoldable pub open_clone : Skill → SkillsPage → SkillsPage
open_clone s page = record page {
  editing_skill = none;
  clone_source = some s;
  detail_skill = none;
  modal_open = true;
}

unfoldable pub close_modal : SkillsPage → SkillsPage
close_modal page = record page { modal_open = false; editing_skill = none; clone_source = none }

unfoldable pub initial_form_data : SkillsPage → SkillForm
initial_form_data page = elim page.editing_skill [
  | some s ↦ edit_form s
  | none ↦ elim page.clone_source [ some s ↦ clone_form s | none ↦ empty_form ]
]

-- What handleSave sends.
pub data SaveRequest : Type 0 where
  to_update : Text → SkillForm → SaveRequest
  to_create : SkillForm → SaveRequest

unfoldable pub save_request : SkillForm → SkillsPage → SaveRequest
save_request form page = elim page.editing_skill [
  | some s ↦ to_update s.id form
  | none ↦ to_create form
]

-- The button that saves is disabled on a name of white space.
unfoldable pub may_save : SkillForm → Bool
may_save form = nonempty (trim form.name)

-- handleSave from its answer on; a request that throws is passed over.
unfoldable pub handle_save : Bool → SkillsPage → SkillsPage
handle_save saved page = if saved then begin_load_skills (close_modal page) else page

unfoldable pub handle_skill_delete : Bool → SkillsPage → SkillsPage
handle_skill_delete deleted page =
    if deleted then begin_load_skills (record page { detail_skill = none }) else page
