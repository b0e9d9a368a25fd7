-- ===== src/Skills/Tests.antt =====
-- Runs of the page of the skills.
use recif.Base.{
  ◌≡◌, refl, inl, true, false, Option, none, some, List, [], ◌∷◌, map, any, if◌then◌else◌, arith,
}
use recif.Text.{Text, codes, text_eq}
use recif.Skills.{Skill, SkilledAgent, SkillsPage, empty_form, initial_form_data, save_request}
use recif.Skills.Editor.{KeyValueEditor, type_key, add, FileEdit}
use recif.Skills.Modal.{
  created, edited, saved, SkillsEvent, handle_all, last_dialogue, closed, form_of, sends,
  Represents, handle_all-dialogue,
}
use recif.Skills.Panel.Assigned.{with_skills, replay}
use recif.Skills.Panel.Clicks.{Click, show, assign, unassign, Keeps, clicks, all_asked, Served}
use recif.Skills.Panel.Served.{clicks-served}

abbrev pdf : Skill
pdf = record {
  id = codes "sk1";
  name = codes "pdf";
  description = [];
  category = codes "general";
  instructions = [];
  version = [];
  author = [];
  source = [];
  compatibility = [];
  channel_filter = [];
  tools = [];
  scripts = [];
  references = [];
  assets = [];
  builtin = false;
}

abbrev agent : Text → List Text → SkilledAgent
agent id skills = record { id = id; name = id; skills = skills }

abbrev fleet : List SkilledAgent
fleet = agent (codes "a1") [] ∷ agent (codes "a2") (codes "sk1" ∷ codes "sk2" ∷ []) ∷ []

abbrev page : SkillsPage
page = record {
  skills = pdf ∷ [];
  agents = fleet;
  loading = false;
  modal_open = false;
  editing_skill = none;
  clone_source = none;
  detail_skill = none;
}

-- A server that is its list of agents, and refuses an agent that it does not have.
abbrev listed : List SkilledAgent → List SkilledAgent
listed s = s

abbrev put : Text → List Text → List SkilledAgent → Option (List SkilledAgent)
put id ks s =
    if any (λ (a : SkilledAgent). text_eq a.id id) s then some (map (with_skills id ks) s) else none

put-Keeps : Keeps listed put
put-Keeps id ks s s' h = ground (arith, h)

abbrev visit : List Click
visit =
    show (some pdf)
    ∷ assign (codes "a1") true
    ∷ unassign (codes "a2") false
    ∷ assign (codes "a2") true
    ∷ []

clicks-served_example :
    Served listed (clicks listed put visit (page, fleet)) (codes "a1") (codes "sk1")
    ≡ replay
        (all_asked listed put visit (page, fleet))
        (Served listed (page, fleet))
        (codes "a1")
        (codes "sk1")
clicks-served_example =
    clicks-served listed put put-Keeps visit (page, fleet) (inl refl) (codes "a1") (codes "sk1")

abbrev evening : List SkillsEvent
evening = created ∷ saved true ∷ edited pdf ∷ saved false ∷ []

page-Represents : Represents closed page
page-Represents = record { modal_open = refl; editing_skill = refl; clone_source = refl }

handle_all-dialogue_example :
    ((handle_all evening page).modal_open
      ≡ (elim (last_dialogue evening closed) [ closed ↦ false | _ ↦ true ]))
    × (initial_form_data (handle_all evening page) ≡ form_of (last_dialogue evening closed))
    × (save_request empty_form (handle_all evening page)
        ≡ sends (last_dialogue evening closed) empty_form)
handle_all-dialogue_example = handle_all-dialogue evening page empty_form page-Represents

abbrev editor : KeyValueEditor
editor = record { entries = (codes "a.py", codes "x") ∷ []; new_key = [] }

abbrev session : List FileEdit
session = type_key (codes "a.py ") ∷ add ∷ type_key (codes "b.py") ∷ add ∷ []

abbrev builder : KeyValueEditor
builder = record { entries = []; new_key = codes "constructor" }
