-- ===== src/AgentPage/Config.antt =====
-- The tab of the configuration on dashboard/src/app/(dashboard)/agents/[id]/page.tsx: the form that
-- loadAgent fills, its number of replicas, and what handleConfigSave sends.
pub mod Saved
mod Tests
use recif.Base.{
  ℕ, ◌+◌, ◌*◌, ◌-◌, ◌==◌, Bool, true, false, ◌&&◌, ◌||◌, Option, none, some, List, [], ◌∷◌, ◌++◌,
  ltb, leb, if◌then◌else◌,
}
use mathlib.Core.Option
use recif.Text.{Text, codes, trim_start}
use recif.Text.Decimal.{decimal}
use recif.Json.{nonempty}
use recif.Chat.Send.{is_ok}
use recif.AgentPage.{Severity, success, error, Message, Sent, status, thrown, reason, or_default}

-- The configuration that the agent of a response has; an empty text or array stands for a field that
-- is missing or empty, and `kbs` for either spelling of the field of the knowledge bases.
pub record StoredConfig : Type 0 where
  pub model_type : Text
  pub model_id : Text
  pub gcp_service_account : Text
  pub strategy : Text
  pub channel : Text
  pub storage : Text
  pub system_prompt : Text
  pub replicas : Option ℕ
  pub image : Text
  pub tools : List Text
  pub knowledge_bases : List Text
  pub skills : List Text

pub record ConfigForm : Type 0 where
  pub model_type : Text
  pub model_id : Text
  pub gcp_service_account : Text
  pub strategy : Text
  pub channel : Text
  pub storage : Text
  pub system_prompt : Text
  pub replicas : ℕ
  pub image : Text
  pub tools : List Text
  pub knowledge_bases : List Text
  pub skills : List Text

unfoldable pub load_config : StoredConfig → ConfigForm
load_config a = record {
  model_type = or_default a.model_type (codes "vertex-ai");
  model_id = a.model_id;
  gcp_service_account = a.gcp_service_account;
  strategy = or_default a.strategy (codes "agent-react");
  channel = or_default a.channel (codes "rest");
  storage = a.storage;
  system_prompt = a.system_prompt;
  replicas = Option.get_or a.replicas 1;
  image = or_default a.image (codes "ghcr.io/recif-platform/corail:latest");
  tools = a.tools;
  knowledge_bases = a.knowledge_bases;
  skills = a.skills;
}

-- The digits in front of a text, read onto a number.
unfoldable pub digits_onto : ℕ → Text → ℕ
digits_onto n [] = n
digits_onto n (c ∷ s) =
    let rest = digits_onto (n * 10 + (c - b'0')) s in if leb b'0' c && leb c b'9' then rest else n

-- The hexadecimal digit of a code unit.
abbrev pub hex_value : ℕ → Option ℕ
hex_value c =
    if leb b'0' c && leb c b'9'
    then some (c - b'0')
    else if leb b'a' c && leb c b'f'
    then some (c - b'a' + 10)
    else if leb b'A' c && leb c b'F'
    then some (c - b'A' + 10)
    else none

unfoldable pub hex_digits_onto : ℕ → Text → ℕ
hex_digits_onto n [] = n
hex_digits_onto n (c ∷ s) = elim (hex_value c) [
  | some d ↦ hex_digits_onto (n * 16 + d) s
  | none ↦ n
]

-- What parseInt reads behind the sign: hexadecimal digits behind 0x, and else decimal ones.
unfoldable pub magnitude : Text → ℕ
magnitude [] = digits_onto 0 []
magnitude (c ∷ []) = digits_onto 0 (c ∷ [])
magnitude (c ∷ x ∷ s) =
    if (c == b'0') && (x == b'x' || x == b'X')
    then hex_digits_onto 0 s
    else digits_onto 0 (c ∷ x ∷ s)

-- parseInt without a radix: the sign and the digits in front, with 0 where there are none, as `|| 1`
-- treats NaN and 0 alike.
unfoldable pub parse_int : Text → Bool × ℕ
parse_int t = elim (trim_start t) [
  | [] ↦ (false, 0)
  | c ∷ s ↦
      if c == b'-'
      then (true, magnitude s)
      else if c == b'+'
      then (false, magnitude s)
      else (false, magnitude (c ∷ s))
]

-- `Math.max(1, Math.min(10, parseInt(v) || 1))`
unfoldable pub clamp_replicas : Text → ℕ
clamp_replicas v =
    let (negative, n) = parse_int v in
    if negative then 1 else if n == 0 then 1 else if ltb 10 n then 10 else n

unfoldable pub change_replicas : Text → ConfigForm → ConfigForm
change_replicas v f = record f { replicas = clamp_replicas v }

-- What handleConfigSave sends; `none` is a field that is left out.
pub record ConfigPayload : Type 0 where
  pub model_type : Text
  pub model_id : Text
  pub strategy : Text
  pub channel : Text
  pub storage : Text
  pub system_prompt : Text
  pub replicas : ℕ
  pub image : Text
  pub tools : List Text
  pub knowledge_bases : List Text
  pub skills : List Text
  pub gcp_service_account : Option Text

unfoldable pub payload_of : ConfigForm → ConfigPayload
payload_of f = record {
  model_type = f.model_type;
  model_id = f.model_id;
  strategy = f.strategy;
  channel = f.channel;
  storage = f.storage;
  system_prompt = f.system_prompt;
  replicas = f.replicas;
  image = f.image;
  tools = f.tools;
  knowledge_bases = f.knowledge_bases;
  skills = f.skills;
  gcp_service_account = if nonempty f.gcp_service_account then some f.gcp_service_account else none;
}

pub record ConfigTab : Type 0 where
  pub form : ConfigForm
  pub saving : Bool
  pub msg : Option Message

-- handleConfigSave on a page with an agent: `patch` is the server's answer to the payload.
unfoldable pub config_failed : Text → ConfigTab → ConfigTab
config_failed why tab = record tab {
  msg = some (record { type = error; text = codes "Failed to save: " ++ why });
  saving = false;
}

unfoldable pub handle_config_save : (ConfigPayload → Sent) → ConfigTab → ConfigTab
handle_config_save patch tab = elim (patch (payload_of tab.form)) [
  | thrown e ↦ config_failed (reason e) tab
  | status s ↦
      if is_ok s
      then record tab {
        msg = some (record {
          type = success;
          text = codes "Configuration saved and applied successfully.";
        });
        saving = false;
      }
      else config_failed (codes "HTTP " ++ decimal s) tab
]
