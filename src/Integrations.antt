-- ===== src/Integrations.antt =====
-- The page of the integrations, dashboard/src/app/(dashboard)/integrations/page.tsx: its list, and the
-- dialogue in which one is added.
pub mod Draft
mod Tests
use recif.Base.{
  ℕ, ◌==◌, Bool, true, false, not, ◌&&◌, Option, none, some, List, [], ◌∷◌, ◌++◌, filter,
  if◌then◌else◌,
}
use recif.Text.{Text, codes, text_eq, trim}
use recif.Json.{nonempty}
use recif.Maps.{Map, map_set}

-- What the page uses of an integration and of a type.
pub record Integration : Type 0 where
  pub id : Text
  pub name : Text
  pub type : Text
  pub status : Text

pub record IntegrationType : Type 0 where
  pub type : Text
  pub label : Text

pub record TestResult : Type 0 where
  pub status : Text
  pub message : Text

-- An empty text of `error` stands for no error.
pub record IntegrationsPage : Type 0 where
  pub integrations : List Integration
  pub types : List IntegrationType
  pub loading : Bool
  pub show_modal : Bool
  pub step : ℕ
  pub selected_type : Option IntegrationType
  pub name : Text
  pub config : Map Text
  pub credentials : Map Text
  pub saving : Bool
  pub error : Text
  pub test_results : Map TestResult

-- load from its answers on, which are none where one of the two requests throws.
unfoldable pub integrations_loaded :
    Option (List Integration × List IntegrationType) → IntegrationsPage → IntegrationsPage
integrations_loaded none page = record page { loading = false }
integrations_loaded (some (found, types)) page = record page {
  integrations = found;
  types = types;
  loading = false;
}

unfoldable pub open_integration_modal : IntegrationsPage → IntegrationsPage
open_integration_modal page = record page {
  show_modal = true;
  step = 1;
  selected_type = none;
  name = [];
  config = [];
  credentials = [];
  error = [];
}

unfoldable pub close_integration_modal : IntegrationsPage → IntegrationsPage
close_integration_modal page = record page { show_modal = false }

unfoldable pub select_type : IntegrationType → IntegrationsPage → IntegrationsPage
select_type t page = record page {
  selected_type = some t;
  name = codes "My " ++ t.label;
  config = [];
  credentials = [];
  error = [];
  step = 2;
}

-- The button that goes back to the types.
unfoldable pub back_to_types : IntegrationsPage → IntegrationsPage
back_to_types page = record page { step = 1 }

-- What createIntegration sends.
pub record NewIntegration : Type 0 where
  pub name : Text
  pub type : Text
  pub config : Map Text
  pub credentials : Map Text

-- The request of handleCreate, unless its guard stops it.
unfoldable pub creation_request : IntegrationsPage → Option NewIntegration
creation_request page = elim page.selected_type [
  | none ↦ none
  | some t ↦
      if nonempty (trim page.name)
      then some (record {
        name = page.name;
        type = t.type;
        config = page.config;
        credentials = page.credentials;
      })
      else none
]

-- handleCreate up to its request, and from the answer on: the list that load reads then, or the
-- message of what is thrown.
unfoldable pub begin_creation : IntegrationsPage → IntegrationsPage
begin_creation page = elim (creation_request page) [
  | none ↦ page
  | some r ↦ record page { saving = true; error = [] }
]

unfoldable pub integration_created :
    Option (List Integration × List IntegrationType) → IntegrationsPage → IntegrationsPage
integration_created answer page =
    record (integrations_loaded answer (close_integration_modal page)) { saving = false }

unfoldable pub creation_failed : Text → IntegrationsPage → IntegrationsPage
creation_failed why page = record page { error = why; saving = false }

-- handleDelete and handleTest, whose requests succeed or throw.
unfoldable pub handle_integration_delete : Bool → Text → IntegrationsPage → IntegrationsPage
handle_integration_delete deleted id page =
    if deleted
    then record page {
      integrations = filter (λ (i : Integration). not (text_eq i.id id)) page.integrations;
    }
    else page

unfoldable pub handle_test :
    Text
    → Option (TestResult × Option (List Integration × List IntegrationType))
    → IntegrationsPage
    → IntegrationsPage
handle_test id none page = record page {
  test_results =
      map_set id (record { status = codes "error"; message = codes "Test failed" })
        page.test_results;
}
handle_test id (some (result, answer)) page =
    integrations_loaded answer (record page { test_results = map_set id result page.test_results })

-- What the user does in the dialogue, and the end of a creation.
pub data DialogueEvent : Type 0 where
  type_name : Text → DialogueEvent
  set_config set_credential : Text → Text → DialogueEvent
  create : DialogueEvent
  refused : Text → DialogueEvent
  created : Option (List Integration × List IntegrationType) → DialogueEvent
  select : IntegrationType → DialogueEvent
  open_anew close back : DialogueEvent

abbrev pub is_filling : IntegrationsPage → Bool
is_filling page = page.show_modal && page.step == 2

-- The fields are shown in the second step only; the button that creates is disabled while one runs.
unfoldable pub on_dialogue : DialogueEvent → IntegrationsPage → IntegrationsPage
on_dialogue (type_name t) page = if is_filling page then record page { name = t } else page
on_dialogue (set_config k v) page =
    if is_filling page then record page { config = map_set k v page.config } else page
on_dialogue (set_credential k v) page =
    if is_filling page then record page { credentials = map_set k v page.credentials } else page
on_dialogue create page = if is_filling page && not page.saving then begin_creation page else page
on_dialogue (refused why) page = creation_failed why page
on_dialogue (created answer) page = integration_created answer page
on_dialogue (select t) page = select_type t page
on_dialogue open_anew page = open_integration_modal page
on_dialogue close page = close_integration_modal page
on_dialogue back page = back_to_types page

unfoldable pub on_dialogues : List DialogueEvent → IntegrationsPage → IntegrationsPage
on_dialogues [] page = page
on_dialogues (e ∷ es) page = on_dialogues es (on_dialogue e page)
