-- ===== src/Integrations/Tests.antt =====
-- Runs of the dialogue of a new integration.
use recif.Base.{◌≡◌, refl, false, true, none, some, List, [], ◌∷◌, if◌then◌else◌}
use recif.Text.{codes, trim}
use recif.Json.{nonempty}
use recif.Integrations.{
  IntegrationType, IntegrationsPage, creation_request, DialogueEvent, type_name, set_config,
  set_credential, create, refused, select, on_dialogues,
}
use recif.Integrations.Draft.{fresh_draft, edits, creation_request-entered}

abbrev github : IntegrationType
github = record { type = codes "github"; label = codes "GitHub" }

-- The dialogue with the fields of another type filled in.
abbrev half_filled : IntegrationsPage
half_filled = record {
  integrations = [];
  types = github ∷ [];
  loading = false;
  show_modal = true;
  step = 2;
  selected_type = some (record { type = codes "jira"; label = codes "Jira" });
  name = codes "Work";
  config = (codes "url", codes "https://jira") ∷ [];
  credentials = (codes "token", codes "secret") ∷ [];
  saving = false;
  error = [];
  test_results = [];
}

abbrev entered : List DialogueEvent
entered =
    set_config (codes "org") (codes "recif")
    ∷ set_credential (codes "token") (codes "t1")
    ∷ create
    ∷ refused (codes "HTTP 500")
    ∷ type_name (codes "Code")
    ∷ []

creation_request-entered_example :
    creation_request (on_dialogues (select github ∷ entered) half_filled) ≡ (
      if nonempty (trim (edits entered (fresh_draft github)).name)
      then some (edits entered (fresh_draft github))
      else none)
creation_request-entered_example =
    creation_request-entered github entered half_filled refl
      (refl, (refl, (refl, (refl, (refl, tt)))))
