-- ===== src/Skills/Modal.antt =====
-- The dialogue of the skills: what it shows and what saving sends depend on what was opened last.
use recif.Base.{◌≡◌, Bool, true, false, Option, none, some, List, [], ◌∷◌, arith}
use recif.Skills.{
  Skill, SkillForm, SkillsPage, empty_form, edit_form, clone_form, begin_load_skills, skills_loaded,
  open_skill_create, open_skill_edit, open_clone, close_modal, initial_form_data, SaveRequest,
  to_update, to_create, save_request, handle_save, handle_skill_delete,
}

-- What happens on the page, the answers of requests included.
pub data SkillsEvent : Type 0 where
  created dismissed : SkillsEvent
  edited cloned detailed : Skill → SkillsEvent
  saved deleted : Bool → SkillsEvent
  loaded : Option (List Skill) → SkillsEvent

unfoldable pub handle_skills : SkillsEvent → SkillsPage → SkillsPage
handle_skills created page = open_skill_create page
handle_skills dismissed page = close_modal page
handle_skills (edited s) page = open_skill_edit s page
handle_skills (cloned s) page = open_clone s page
handle_skills (detailed s) page = record page { detail_skill = some s }
handle_skills (saved ok) page = handle_save ok page
handle_skills (deleted ok) page = handle_skill_delete ok page
handle_skills (loaded answer) page = skills_loaded answer page

unfoldable pub handle_all : List SkillsEvent → SkillsPage → SkillsPage
handle_all [] page = page
handle_all (e ∷ es) page = handle_all es (handle_skills e page)

-- The dialogue as its user sees it.
pub data Dialogue : Type 0 where
  closed : Dialogue
  creating : Dialogue
  editing : Skill → Dialogue
  cloning : Skill → Dialogue

unfoldable pub next_dialogue : SkillsEvent → Dialogue → Dialogue
next_dialogue created d = creating
next_dialogue dismissed d = closed
next_dialogue (edited s) d = editing s
next_dialogue (cloned s) d = cloning s
next_dialogue (saved true) d = closed
next_dialogue _ d = d

unfoldable pub last_dialogue : List SkillsEvent → Dialogue → Dialogue
last_dialogue [] d = d
last_dialogue (e ∷ es) d = last_dialogue es (next_dialogue e d)

-- The form that a dialogue begins with, and what it sends.
abbrev pub form_of : Dialogue → SkillForm
form_of (editing s) = edit_form s
form_of (cloning s) = clone_form s
form_of _ = empty_form

abbrev pub sends : Dialogue → SkillForm → SaveRequest
sends (editing s) form = to_update s.id form
sends _ form = to_create form

-- How the page represents a dialogue.
pub record Represents (d : Dialogue) (page : SkillsPage) : Type 0 where
  pub modal_open : page.modal_open ≡ (elim d [ closed ↦ false | _ ↦ true ])
  pub editing_skill : page.editing_skill ≡ (elim d [ editing s ↦ some s | _ ↦ none ])
  pub clone_source : page.clone_source ≡ (elim d [ cloning s ↦ some s | _ ↦ none ])

handle_skills-Represents :
    (e : SkillsEvent) (d : Dialogue) (page : SkillsPage)
    → Represents d page
    → Represents (next_dialogue e d) (handle_skills e page)
unfolding handle_skills next_dialogue open_skill_create open_skill_edit open_clone close_modal
    handle_save handle_skill_delete begin_load_skills skills_loaded
handle_skills-Represents created d page r = ground arith
handle_skills-Represents dismissed d page r = ground arith
handle_skills-Represents (edited s) d page r = ground arith
handle_skills-Represents (cloned s) d page r = ground arith
handle_skills-Represents (detailed s) d page r = ground arith
handle_skills-Represents (saved ok) d page r = ground arith
handle_skills-Represents (deleted ok) d page r = ground arith
handle_skills-Represents (loaded answer) d page r = ground arith

handle_all-Represents :
    (es : List SkillsEvent) (d : Dialogue) (page : SkillsPage)
    → Represents d page
    → Represents (last_dialogue es d) (handle_all es page)
unfolding handle_all last_dialogue
handle_all-Represents [] d page r = r
handle_all-Represents (e ∷ es) d page r =
    handle_all-Represents es (next_dialogue e d) (handle_skills e page)
      (handle_skills-Represents e d page r)

Represents-save :
    (d : Dialogue) (page : SkillsPage) (form : SkillForm)
    → Represents d page
    → (page.modal_open ≡ (elim d [ closed ↦ false | _ ↦ true ]))
      × (initial_form_data page ≡ form_of d)
      × (save_request form page ≡ sends d form)
unfolding initial_form_data save_request
Represents-save closed page form r = ground arith
Represents-save creating page form r = ground arith
Represents-save (editing s) page form r = ground arith
Represents-save (cloning s) page form r = ground arith

-- Whatever is clicked and answered on a page whose dialogue is closed: the dialogue is open exactly if
-- one was opened and neither closed nor saved since, it begins with the form of the skill that was
-- opened last, and saving changes that skill if it was opened for editing and else creates a new one,
-- also for a clone.
pub handle_all-dialogue :
    (es : List SkillsEvent) (page : SkillsPage) (form : SkillForm)
    → Represents closed page
    → ((handle_all es page).modal_open
        ≡ (elim (last_dialogue es closed) [ closed ↦ false | _ ↦ true ]))
      × (initial_form_data (handle_all es page) ≡ form_of (last_dialogue es closed))
      × (save_request form (handle_all es page) ≡ sends (last_dialogue es closed) form)
handle_all-dialogue es page form r =
    Represents-save (last_dialogue es closed) (handle_all es page) form
      (handle_all-Represents es closed page r)
