-- ===== src/Api/Catalog.antt =====
-- dashboard/src/lib/api.ts: Prompts, integrations and skills. The functions on one
-- prompt, which encode its name, are in Prompts.antt.
use recif.Base.{Option, none, some, [], ◌∷◌}
use recif.Text.{Text, codes}
use recif.Json.{Json, str}
use recif.Api.{
  Endpoint, get_method, post_method, put_method, delete_method, with_status, no_items, nothing,
  whole, item, items, object, or_empty,
}

abbrev pub fetch_prompts : Endpoint
fetch_prompts = record {
  method = get_method;
  segments = codes "prompts" ∷ [];
  query = [];
  body = none;
  refusal = no_items;
  shape = items (codes "prompts");
}

abbrev pub create_prompt : Text → Text → Text → Endpoint
create_prompt name template commit_message = record {
  method = post_method;
  segments = codes "prompts" ∷ [];
  query = [];
  body = object (
      (codes "name", str name)
      ∷ (codes "template", str template)
      ∷ (codes "commit_message", str commit_message)
      ∷ []);
  refusal = with_status (codes "Failed to create prompt");
  shape = whole;
}

abbrev pub fetch_integrations : Endpoint
fetch_integrations = record {
  method = get_method;
  segments = codes "integrations" ∷ [];
  query = [];
  body = none;
  refusal = with_status (codes "Failed to fetch integrations");
  shape = items (codes "data");
}

abbrev pub fetch_integration_types : Endpoint
fetch_integration_types = record {
  method = get_method;
  segments = codes "integrations" ∷ codes "types" ∷ [];
  query = [];
  body = none;
  refusal = with_status (codes "Failed to fetch integration types");
  shape = items (codes "data");
}

abbrev pub create_integration : Json → Endpoint
create_integration params = record {
  method = post_method;
  segments = codes "integrations" ∷ [];
  query = [];
  body = some params;
  refusal = with_status (codes "Failed to create integration");
  shape = item (codes "data");
}

abbrev pub delete_integration : Text → Endpoint
delete_integration id = record {
  method = delete_method;
  segments = codes "integrations" ∷ id ∷ [];
  query = [];
  body = none;
  refusal = with_status (codes "Failed to delete integration");
  shape = nothing;
}

abbrev pub test_integration : Text → Endpoint
test_integration id = record {
  method = post_method;
  segments = codes "integrations" ∷ id ∷ codes "test" ∷ [];
  query = [];
  body = none;
  refusal = with_status (codes "Failed to test integration");
  shape = item (codes "data");
}

abbrev pub fetch_skills : Endpoint
fetch_skills = record {
  method = get_method;
  segments = codes "skills" ∷ [];
  query = [];
  body = none;
  refusal = with_status (codes "Failed to fetch skills");
  shape = items (codes "data");
}

abbrev pub create_skill : Json → Endpoint
create_skill skill = record {
  method = post_method;
  segments = codes "skills" ∷ [];
  query = [];
  body = some skill;
  refusal = with_status (codes "Failed to create skill");
  shape = item (codes "data");
}

abbrev pub update_skill : Text → Json → Endpoint
update_skill id skill = record {
  method = put_method;
  segments = codes "skills" ∷ id ∷ [];
  query = [];
  body = some skill;
  refusal = with_status (codes "Failed to update skill");
  shape = item (codes "data");
}

abbrev pub delete_skill : Text → Endpoint
delete_skill id = record {
  method = delete_method;
  segments = codes "skills" ∷ id ∷ [];
  query = [];
  body = none;
  refusal = with_status (codes "Failed to delete skill");
  shape = nothing;
}

abbrev pub import_skill : Text → Option Text → Endpoint
import_skill source token = record {
  method = post_method;
  segments = codes "skills" ∷ codes "import" ∷ [];
  query = [];
  body = object ((codes "source", str source) ∷ (codes "token", str (or_empty token)) ∷ []);
  refusal = with_status (codes "Failed to import skill");
  shape = item (codes "data");
}
