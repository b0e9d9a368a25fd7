-- ===== src/Api/Platform.antt =====
-- dashboard/src/lib/api.ts: Users, governance, radar and the platform.
use recif.Base.{none, some, [], ◌∷◌}
use recif.Text.{Text, codes}
use recif.Json.{Json, str}
use recif.Api.{
  Endpoint, get_method, post_method, put_method, delete_method, with_status, plain_words,
  server_words, server_words_or_status, nothing, whole, item, items, object,
}

abbrev pub login : Text → Text → Endpoint
login email password = record {
  method = post_method;
  segments = codes "auth" ∷ codes "login" ∷ [];
  query = [];
  body = object ((codes "email", str email) ∷ (codes "password", str password) ∷ []);
  refusal = server_words (codes "Invalid email or password");
  shape = whole;
}

abbrev pub register : Text → Text → Text → Endpoint
register email name password = record {
  method = post_method;
  segments = codes "auth" ∷ codes "register" ∷ [];
  query = [];
  body = object (
      (codes "email", str email)
      ∷ (codes "name", str name)
      ∷ (codes "password", str password)
      ∷ []);
  refusal = server_words (codes "Registration failed");
  shape = whole;
}

abbrev pub fetch_current_user : Endpoint
fetch_current_user = record {
  method = get_method;
  segments = codes "auth" ∷ codes "me" ∷ [];
  query = [];
  body = none;
  refusal = plain_words (codes "Not authenticated");
  shape = whole;
}

abbrev pub fetch_users : Endpoint
fetch_users = record {
  method = get_method;
  segments = codes "users" ∷ [];
  query = [];
  body = none;
  refusal = with_status (codes "Failed to fetch users");
  shape = items (codes "data");
}

abbrev pub create_user : Text → Text → Text → Text → Endpoint
create_user email name password role = record {
  method = post_method;
  segments = codes "users" ∷ [];
  query = [];
  body = object (
      (codes "email", str email)
      ∷ (codes "name", str name)
      ∷ (codes "password", str password)
      ∷ (codes "role", str role)
      ∷ []);
  refusal = server_words_or_status (codes "Failed to create user");
  shape = item (codes "data");
}

abbrev pub fetch_scorecards : Endpoint
fetch_scorecards = record {
  method = get_method;
  segments = codes "governance" ∷ codes "scorecards" ∷ [];
  query = [];
  body = none;
  refusal = with_status (codes "Failed to fetch scorecards");
  shape = items (codes "data");
}

abbrev pub fetch_scorecard : Text → Endpoint
fetch_scorecard agent_id = record {
  method = get_method;
  segments = codes "governance" ∷ codes "scorecards" ∷ agent_id ∷ [];
  query = [];
  body = none;
  refusal = with_status (codes "Failed to fetch scorecard");
  shape = item (codes "data");
}

abbrev pub fetch_policies : Endpoint
fetch_policies = record {
  method = get_method;
  segments = codes "governance" ∷ codes "policies" ∷ [];
  query = [];
  body = none;
  refusal = with_status (codes "Failed to fetch policies");
  shape = items (codes "data");
}

abbrev pub create_policy : Json → Endpoint
create_policy policy = record {
  method = post_method;
  segments = codes "governance" ∷ codes "policies" ∷ [];
  query = [];
  body = some policy;
  refusal = with_status (codes "Failed to create policy");
  shape = item (codes "data");
}

abbrev pub delete_policy : Text → Endpoint
delete_policy id = record {
  method = delete_method;
  segments = codes "governance" ∷ codes "policies" ∷ id ∷ [];
  query = [];
  body = none;
  refusal = with_status (codes "Failed to delete policy");
  shape = nothing;
}

abbrev pub fetch_radar_overview : Endpoint
fetch_radar_overview = record {
  method = get_method;
  segments = codes "radar" ∷ [];
  query = [];
  body = none;
  refusal = with_status (codes "Failed to fetch radar overview");
  shape = item (codes "data");
}

abbrev pub fetch_agent_health : Text → Endpoint
fetch_agent_health agent_id = record {
  method = get_method;
  segments = codes "radar" ∷ agent_id ∷ [];
  query = [];
  body = none;
  refusal = with_status (codes "Failed to fetch agent health");
  shape = item (codes "data");
}

abbrev pub fetch_alerts : Endpoint
fetch_alerts = record {
  method = get_method;
  segments = codes "radar" ∷ codes "alerts" ∷ [];
  query = [];
  body = none;
  refusal = with_status (codes "Failed to fetch alerts");
  shape = items (codes "data");
}

abbrev pub fetch_platform_config : Endpoint
fetch_platform_config = record {
  method = get_method;
  segments = codes "platform" ∷ codes "config" ∷ [];
  query = [];
  body = none;
  refusal = with_status (codes "Failed to fetch platform config");
  shape = item (codes "data");
}

abbrev pub update_platform_config : Json → Endpoint
update_platform_config cfg = record {
  method = put_method;
  segments = codes "platform" ∷ codes "config" ∷ [];
  query = [];
  body = some cfg;
  refusal = with_status (codes "Failed to update platform config");
  shape = item (codes "data");
}

abbrev pub test_platform_connections : Endpoint
test_platform_connections = record {
  method = post_method;
  segments = codes "platform" ∷ codes "config" ∷ codes "test" ∷ [];
  query = [];
  body = none;
  refusal = with_status (codes "Failed to test connections");
  shape = item (codes "data");
}

abbrev pub sync_from_state_repo : Endpoint
sync_from_state_repo = record {
  method = post_method;
  segments = codes "platform" ∷ codes "sync" ∷ [];
  query = [];
  body = none;
  refusal = with_status (codes "Failed to sync");
  shape = item (codes "data");
}
