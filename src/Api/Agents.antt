-- ===== src/Api/Agents.antt =====
-- dashboard/src/lib/api.ts: Agents, their memory and their releases.
use recif.Base.{ℕ, none, [], ◌∷◌, ◌++◌}
use recif.Text.{Text, codes}
use recif.Text.Decimal.{decimal}
use recif.Json.{str, num}
use recif.Api.{
  Endpoint, get_method, post_method, delete_method, with_status, no_items, nothing, whole, item,
  items, object,
}

abbrev pub fetch_agents : Endpoint
fetch_agents = record {
  method = get_method;
  segments = codes "agents" ∷ [];
  query = [];
  body = none;
  refusal = with_status (codes "Failed to fetch agents");
  shape = items (codes "data");
}

abbrev pub deploy_agent : Text → Endpoint
deploy_agent id = record {
  method = post_method;
  segments = codes "agents" ∷ id ∷ codes "deploy" ∷ [];
  query = [];
  body = none;
  refusal = with_status (codes "Failed to deploy agent");
  shape = item (codes "data");
}

abbrev pub stop_agent : Text → Endpoint
stop_agent id = record {
  method = post_method;
  segments = codes "agents" ∷ id ∷ codes "stop" ∷ [];
  query = [];
  body = none;
  refusal = with_status (codes "Failed to stop agent");
  shape = item (codes "data");
}

abbrev pub restart_agent : Text → Endpoint
restart_agent id = record {
  method = post_method;
  segments = codes "agents" ∷ id ∷ codes "restart" ∷ [];
  query = [];
  body = none;
  refusal = with_status (codes "Failed to restart agent");
  shape = item (codes "data");
}

abbrev pub delete_agent : Text → Endpoint
delete_agent id = record {
  method = delete_method;
  segments = codes "agents" ∷ id ∷ [];
  query = [];
  body = none;
  refusal = with_status (codes "Failed to delete agent");
  shape = nothing;
}

abbrev pub fetch_agent_events : Text → Endpoint
fetch_agent_events agent_id = record {
  method = get_method;
  segments = codes "agents" ∷ agent_id ∷ codes "events" ∷ [];
  query = [];
  body = none;
  refusal = no_items;
  shape = items (codes "data");
}

abbrev pub fetch_memory_status : Text → Endpoint
fetch_memory_status agent_slug = record {
  method = get_method;
  segments = codes "agents" ∷ agent_slug ∷ codes "memory" ∷ codes "status" ∷ [];
  query = [];
  body = none;
  refusal = with_status (codes "Failed to fetch memory status");
  shape = whole;
}

abbrev pub fetch_memories : Text → ℕ → Endpoint
fetch_memories agent_slug limit = record {
  method = get_method;
  segments = codes "agents" ∷ agent_slug ∷ codes "memory" ∷ [];
  query = codes "?limit=" ++ decimal limit;
  body = none;
  refusal = with_status (codes "Failed to fetch memories");
  shape = items (codes "memories");
}

abbrev pub store_memory : Text → Text → Text → Text → Endpoint
store_memory agent_slug content category source = record {
  method = post_method;
  segments = codes "agents" ∷ agent_slug ∷ codes "memory" ∷ [];
  query = [];
  body = object (
      (codes "content", str content)
      ∷ (codes "category", str category)
      ∷ (codes "source", str source)
      ∷ []);
  refusal = with_status (codes "Failed to store memory");
  shape = nothing;
}

abbrev pub search_memories : Text → Text → ℕ → Endpoint
search_memories agent_slug query top_k = record {
  method = post_method;
  segments = codes "agents" ∷ agent_slug ∷ codes "memory" ∷ codes "search" ∷ [];
  query = [];
  body = object ((codes "query", str query) ∷ (codes "top_k", num (decimal top_k)) ∷ []);
  refusal = with_status (codes "Failed to search memories");
  shape = items (codes "memories");
}

abbrev pub delete_memory : Text → Text → Endpoint
delete_memory agent_slug entry_id = record {
  method = delete_method;
  segments = codes "agents" ∷ agent_slug ∷ codes "memory" ∷ entry_id ∷ [];
  query = [];
  body = none;
  refusal = with_status (codes "Failed to delete memory");
  shape = nothing;
}

abbrev pub fetch_releases : Text → Endpoint
fetch_releases agent_id = record {
  method = get_method;
  segments = codes "agents" ∷ agent_id ∷ codes "releases" ∷ [];
  query = [];
  body = none;
  refusal = with_status (codes "Failed to fetch releases");
  shape = items (codes "data");
}

abbrev pub create_release : Text → Text → Endpoint
create_release agent_id changelog = record {
  method = post_method;
  segments = codes "agents" ∷ agent_id ∷ codes "releases" ∷ [];
  query = [];
  body = object ((codes "changelog", str changelog) ∷ []);
  refusal = with_status (codes "Failed to create release");
  shape = item (codes "data");
}

abbrev pub get_release : Text → ℕ → Endpoint
get_release agent_id version = record {
  method = get_method;
  segments = codes "agents" ∷ agent_id ∷ codes "releases" ∷ decimal version ∷ [];
  query = [];
  body = none;
  refusal = with_status (codes "Failed to get release");
  shape = item (codes "data");
}

abbrev pub deploy_release : Text → ℕ → Endpoint
deploy_release agent_id version = record {
  method = post_method;
  segments = codes "agents" ∷ agent_id ∷ codes "releases" ∷ decimal version ∷ codes "deploy" ∷ [];
  query = [];
  body = none;
  refusal = with_status (codes "Failed to deploy release");
  shape = nothing;
}

abbrev pub diff_releases : Text → ℕ → ℕ → Endpoint
diff_releases agent_id older newer = record {
  method = get_method;
  segments = codes "agents" ∷ agent_id ∷ codes "releases" ∷ codes "diff" ∷ [];
  query = codes "?from=" ++ (decimal older ++ (codes "&to=" ++ decimal newer));
  body = none;
  refusal = with_status (codes "Failed to diff releases");
  shape = items (codes "data");
}
