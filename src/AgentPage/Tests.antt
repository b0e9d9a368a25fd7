-- ===== src/AgentPage/Tests.antt =====
-- Runs of the page of one agent.
use recif.Base.{
  ℕ, ◌≡◌, refl, ◌==◌, true, false, Option, none, some, List, [], ◌∷◌, arith, if◌then◌else◌,
}
use recif.Text.{Text, codes}
use recif.AgentPage.{
  Agent, AgentPage, status, handle_scale, build_agent_yaml, max_retries, show_agent, load_agent,
}
use recif.AgentPage.Actions.{
  restart, rejected, PageEvent, acted, scaled, refetched, handle, run, handle_agent_action,
  refetch_agent,
}
use recif.AgentPage.Loading.{load_agent-first}
use recif.AgentPage.Manifest.{IsOneLine, read_prompt, read_prompt-build_agent_yaml}

abbrev helper : Agent
helper = record {
  id = codes "a1";
  name = codes "Helper";
  framework = [];
  strategy = [];
  channel = [];
  model_type = [];
  model_id = [];
  image = [];
  storage = codes "memory";
  system_prompt = codes "Be brief.\n\n  Be kind.";
  replicas = none;
}

helper-IsOneLine : IsOneLine helper
helper-IsOneLine = record {
  id = ground arith;
  name = ground arith;
  framework = tt;
  strategy = tt;
  channel = tt;
  model_type = tt;
  model_id = tt;
  image = tt;
  storage = ground arith;
}

abbrev as_is : Text → Text
as_is t = t

read_prompt-build_agent_yaml_example :
    read_prompt (build_agent_yaml as_is helper) ≡ some (codes "Be brief.\n\n  Be kind.")
read_prompt-build_agent_yaml_example =
    read_prompt-build_agent_yaml as_is helper helper-IsOneLine refl

abbrev page : AgentPage
page = record {
  agent = none;
  loading = true;
  error = none;
  action_loading = none;
  action_msg = none;
  show_scale_input = false;
  scale_value = 1;
}

-- The agent is there from the third round on.
abbrev slow_server : ℕ → Option (Option Agent)
slow_server k = if k == 2 then some (some helper) else none

load_agent-first_example : load_agent max_retries slow_server 0 page ≡ show_agent (some helper) page
load_agent-first_example = load_agent-first slow_server page

abbrev shown : AgentPage
shown = record page { agent = some helper; loading = false; action_loading = some (codes "stop") }

-- A restart that is refused, a scaling to three replicas that works, a read that fails, and a scaling
-- to five replicas that is refused.
abbrev busy_day : List PageEvent
busy_day =
    acted restart (rejected (some (codes "HTTP 500")))
    ∷ scaled 3 (status 200)
    ∷ refetched none
    ∷ scaled 5 (status 503)
    ∷ []

run-busy_day : (run busy_day shown).agent ≡ some (record helper { replicas = some 3 })
unfolding run handle handle_agent_action handle_scale refetch_agent
run-busy_day = refl
