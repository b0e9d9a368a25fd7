-- ===== src/Api/Teams.antt =====
-- dashboard/src/lib/api.ts: Teams and their members.
use recif.Base.{Option, none, [], ◌∷◌}
use recif.Text.{Text, codes}
use recif.Json.{str}
use recif.Api.{
  Endpoint, get_method, post_method, patch_method, delete_method, with_status, nothing, whole, item,
  items, object, or_empty,
}

abbrev pub fetch_teams : Endpoint
fetch_teams = record {
  method = get_method;
  segments = codes "teams" ∷ [];
  query = [];
  body = none;
  refusal = with_status (codes "Failed to fetch teams");
  shape = items (codes "data");
}

abbrev pub create_team : Text → Option Text → Endpoint
create_team name description = record {
  method = post_method;
  segments = codes "teams" ∷ [];
  query = [];
  body = object ((codes "name", str name) ∷ (codes "description", str (or_empty description)) ∷ []);
  refusal = with_status (codes "Failed to create team");
  shape = item (codes "data");
}

abbrev pub get_team : Text → Endpoint
get_team team_id = record {
  method = get_method;
  segments = codes "teams" ∷ team_id ∷ [];
  query = [];
  body = none;
  refusal = with_status (codes "Failed to get team");
  shape = whole;
}

abbrev pub delete_team : Text → Endpoint
delete_team team_id = record {
  method = delete_method;
  segments = codes "teams" ∷ team_id ∷ [];
  query = [];
  body = none;
  refusal = with_status (codes "Failed to delete team");
  shape = nothing;
}

abbrev pub add_team_member : Text → Text → Text → Endpoint
add_team_member team_id email role = record {
  method = post_method;
  segments = codes "teams" ∷ team_id ∷ codes "members" ∷ [];
  query = [];
  body = object ((codes "email", str email) ∷ (codes "role", str role) ∷ []);
  refusal = with_status (codes "Failed to add team member");
  shape = item (codes "data");
}

abbrev pub remove_team_member : Text → Text → Endpoint
remove_team_member team_id user_id = record {
  method = delete_method;
  segments = codes "teams" ∷ team_id ∷ codes "members" ∷ user_id ∷ [];
  query = [];
  body = none;
  refusal = with_status (codes "Failed to remove team member");
  shape = nothing;
}

abbrev pub update_member_role : Text → Text → Text → Endpoint
update_member_role team_id user_id role = record {
  method = patch_method;
  segments = codes "teams" ∷ team_id ∷ codes "members" ∷ user_id ∷ [];
  query = [];
  body = object ((codes "role", str role) ∷ []);
  refusal = with_status (codes "Failed to update member role");
  shape = nothing;
}
