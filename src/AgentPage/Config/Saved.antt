-- ===== src/AgentPage/Config/Saved.antt =====
-- What is saved against what is loaded again, and the number of replicas in its range.
use recif.Base.{
  All, ℕ, ◌+◌, ◌*◌, ◌-◌, ◌≤◌, ◌≡◌, refl, ap, ◌∙◌, false, some, [], ◌∷◌, ltb, if◌then◌else◌, arith,
}
use recif.Text.{Text, codes, trim_start, is_space}
use recif.Text.Decimal.{decimal, value_from, value-decimal, decimal-All}
use recif.AgentPage.{or_default}
use recif.AgentPage.Config.{
  StoredConfig, ConfigForm, load_config, digits_onto, magnitude, parse_int, clamp_replicas,
  change_replicas, ConfigPayload, payload_of,
}

-- applyConfigToAgent of internal/agent/config_handler.go on the fields of a payload: an empty text
-- leaves the field as it was, but for the prompt; the service account is not looked at.
abbrev pub apply_config_to_agent : StoredConfig → ConfigPayload → StoredConfig
apply_config_to_agent a req = record {
  model_type = or_default req.model_type a.model_type;
  model_id = or_default req.model_id a.model_id;
  gcp_service_account = a.gcp_service_account;
  strategy = or_default req.strategy a.strategy;
  channel = or_default req.channel a.channel;
  storage = or_default req.storage a.storage;
  system_prompt = req.system_prompt;
  replicas = some req.replicas;
  image = or_default req.image a.image;
  tools = req.tools;
  knowledge_bases = req.knowledge_bases;
  skills = req.skills;
}

-- A field that is saved as it was shown is shown again.
or_default-again : (t d : Text) → or_default (or_default (or_default t d) t) d ≡ or_default t d
or_default-again [] [] = refl
or_default-again [] (x ∷ d) = refl
or_default-again (c ∷ t) d = refl

or_default-same : (t : Text) → or_default t t ≡ t
or_default-same [] = refl
or_default-same (c ∷ t) = refl

-- What a form saves reaches a copy of the agent, and the form that is loaded from this copy has what
-- was saved, but for the service account, which is the agent's, and for the texts other than the
-- prompt that were left empty: these are what the agent had, or else their default. So a form that
-- is saved as it was loaded from an agent is loaded again from the copy.
pub load_config-applied :
    (f : ConfigForm) (a : StoredConfig)
    → (load_config (apply_config_to_agent a (payload_of f)) ≡ record f {
      model_type = or_default (or_default f.model_type a.model_type) (codes "vertex-ai");
      model_id = or_default f.model_id a.model_id;
      gcp_service_account = a.gcp_service_account;
      strategy = or_default (or_default f.strategy a.strategy) (codes "agent-react");
      channel = or_default (or_default f.channel a.channel) (codes "rest");
      storage = or_default f.storage a.storage;
      image =
          or_default (or_default f.image a.image) (codes "ghcr.io/recif-platform/corail:latest");
    })
      × (load_config (apply_config_to_agent a (payload_of (load_config a))) ≡ load_config a)
unfolding load_config payload_of
load_config-applied f a = (
  refl,
  rw
      (
        or_default-again a.model_type (codes "vertex-ai"),
        or_default-same a.model_id,
        or_default-again a.strategy (codes "agent-react"),
        or_default-again a.channel (codes "rest"),
        or_default-same a.storage,
        or_default-again a.image (codes "ghcr.io/recif-platform/corail:latest"),
      )
      refl,
)

abbrev IsDigit : ℕ → Type 0
IsDigit c = (b'0' ≤ c) × (c ≤ b'9')

digits_onto-value : (n : ℕ) (s : Text) → All IsDigit s → digits_onto n s ≡ value_from n s
unfolding digits_onto value_from
digits_onto-value n [] _ = refl
digits_onto-value n (c ∷ s) ((h, k), ds) =
    ground (arith, h, k, digits_onto-value (n * 10 + (c - b'0')) s ds)

is_space-digit : (c : ℕ) → IsDigit c → is_space c ≡ false
unfolding is_space
is_space-digit c (h, k) = ground (arith, h, k)

magnitude-digits : (t : Text) → All IsDigit t → magnitude t ≡ value_from 0 t
unfolding magnitude
magnitude-digits [] ds = digits_onto-value 0 [] ds
magnitude-digits (c ∷ []) ds = digits_onto-value 0 (c ∷ []) ds
magnitude-digits (c ∷ x ∷ s) ((h, k), ((i, j), ds)) =
    ground (arith, i, j, digits_onto-value 0 (c ∷ x ∷ s) ((h, k), ((i, j), ds)))

parse_int-digits : (t : Text) → All IsDigit t → parse_int t ≡ (false, value_from 0 t)
unfolding parse_int trim_start value_from
parse_int-digits [] _ = refl
parse_int-digits (c ∷ s) ((h, k), ds) =
    rw (parse_int, is_space-digit c (h, k))
      (ground (arith, h, k, magnitude-digits (c ∷ s) ((h, k), ds)))

parse_int-decimal : (n : ℕ) → parse_int (decimal n) ≡ (false, n)
parse_int-decimal n =
    parse_int-digits (decimal n) (decimal-All IsDigit (λ d lt. omega (arith, lt)) n)
    ∙ ap (λ m. (false, m)) (value-decimal n)

-- Whatever is typed, the form holds between one and ten replicas; where the decimal digits of a natural
-- number are typed, these are the number itself if it is in this range, and else the nearest end of
-- the range.
pub change_replicas_bounds :
    (v : Text) (n : ℕ) (f : ConfigForm)
    → (1 ≤ (change_replicas v f).replicas)
      × ((change_replicas v f).replicas ≤ 10)
      × ((change_replicas (decimal n) f).replicas
          ≡ (if ltb n 1 then 1 else if ltb 10 n then 10 else n))
unfolding change_replicas clamp_replicas
change_replicas_bounds v n f =
    (ground arith, ground arith, rw (clamp_replicas, parse_int-decimal n) (ground arith))
