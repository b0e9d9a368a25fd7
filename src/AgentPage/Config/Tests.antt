-- ===== src/AgentPage/Config/Tests.antt =====
-- Runs of the form of the configuration.
use recif.Base.{refl, true, false, ◌≡◌, ◌≤◌, ltb, if◌then◌else◌, none, [], ◌∷◌}
use recif.Text.{codes, trim_start, is_space}
use recif.Text.Decimal.{decimal}
use recif.AgentPage.Config.{
  StoredConfig, ConfigForm, load_config, change_replicas, payload_of, parse_int, magnitude,
  digits_onto, hex_digits_onto,
}
use recif.AgentPage.Config.Saved.{
  apply_config_to_agent, load_config-applied, change_replicas_bounds,
}

abbrev emptied : ConfigForm
emptied = record {
  model_type = codes "ollama";
  model_id = codes "qwen";
  gcp_service_account = [];
  strategy = [];
  channel = codes "rest";
  storage = codes "memory";
  system_prompt = codes "Be brief.";
  replicas = 2;
  image = [];
  tools = codes "calculator" ∷ [];
  knowledge_bases = [];
  skills = [];
}

abbrev before : StoredConfig
before = record {
  model_type = codes "vertex-ai";
  model_id = codes "gemini";
  gcp_service_account = codes "sa";
  strategy = codes "agent-react";
  channel = codes "rest";
  storage = codes "memory";
  system_prompt = [];
  replicas = none;
  image = [];
  tools = [];
  knowledge_bases = [];
  skills = [];
}

load_config-applied_example :
    (load_config (apply_config_to_agent before (payload_of emptied)) ≡ record emptied {
      gcp_service_account = codes "sa";
      strategy = codes "agent-react";
      image = codes "ghcr.io/recif-platform/corail:latest";
    })
    × (load_config (apply_config_to_agent before (payload_of (load_config before)))
        ≡ load_config before)
load_config-applied_example = load_config-applied emptied before

-- parseInt reads a prefix of the text.
parse_int_runs :
    (parse_int (codes "0x1F") ≡ (false, 31))
    × (parse_int (codes "-7") ≡ (true, 7))
    × (parse_int (codes "1e1") ≡ (false, 1))
    × (parse_int (codes " 2.5") ≡ (false, 2))
unfolding parse_int magnitude digits_onto hex_digits_onto trim_start is_space
parse_int_runs = (refl, refl, refl, refl)

change_replicas_bounds_example :
    (1 ≤ (change_replicas (codes "many") emptied).replicas)
    × ((change_replicas (codes "many") emptied).replicas ≤ 10)
    × ((change_replicas (decimal 12) emptied).replicas
        ≡ (if ltb 12 1 then 1 else if ltb 10 12 then 10 else 12))
change_replicas_bounds_example = change_replicas_bounds (codes "many") 12 emptied
