-- ===== src/AgentPage.antt =====
-- The page of one agent, dashboard/src/app/(dashboard)/agents/[id]/page.tsx: how it is loaded, its
-- actions, and the manifest that it shows.
pub mod Lines
pub mod Actions
pub mod Chat
pub mod Config
pub mod Evaluation
pub mod Releases
pub mod Manifest
pub mod Loading
mod Tests
use mathlib.Core.Option
use recif.Base.{
  ℕ, zero, suc, ◌+◌, ◌==◌, Bool, true, false, not, Option, none, some, List, [], ◌∷◌, ◌++◌, map,
  ltb, if◌then◌else◌,
}
use recif.Text.{Text, codes, join, is_space}
use recif.Text.Decimal.{decimal}
use recif.Json.{nonempty}
use recif.Chat.Send.{is_ok}
use recif.Chat.Stream.{split_lines}

-- The agent as the page uses it; an empty text stands for a field that is missing or empty.
pub record Agent : Type 0 where
  pub id : Text
  pub name : Text
  pub framework : Text
  pub strategy : Text
  pub channel : Text
  pub model_type : Text
  pub model_id : Text
  pub image : Text
  pub storage : Text
  pub system_prompt : Text
  pub replicas : Option ℕ

-- `s.split("\n")`
abbrev pub lines_of : Text → List Text
lines_of s = (split_lines s).0 ++ (split_lines s).1 ∷ []

-- `s.replace(/\s+/g, "-")`; `inside` says whether the code unit before was white space.
unfoldable pub dashed : Bool → Text → Text
dashed inside [] = []
dashed inside (c ∷ s) =
    let after_space = dashed true s in
    let after_other = dashed false s in
    if is_space c then if inside then after_space else b'-' ∷ after_space else c ∷ after_other

-- `t || d`
abbrev pub or_default : Text → Text → Text
or_default t d = if nonempty t then t else d

abbrev pub indented : Text → Text
indented line = codes "    " ++ line

unfoldable pub prompt_lines : Agent → List Text
prompt_lines a =
    if nonempty a.system_prompt
    then codes "  systemPrompt: |" ∷ map indented (lines_of a.system_prompt)
    else []

-- `lower` is toLowerCase.
module _ (lower : Text → Text) where
  unfoldable pub slug_of : Agent → Text
  slug_of a = or_default (dashed false (lower a.name)) a.id

  -- The lines of the manifest before the prompt, the storage at its place.
  unfoldable pub head_lines : Agent → List Text
  head_lines a =
      let storage = if nonempty a.storage then (codes "  storage: " ++ a.storage) ∷ [] else [] in
      codes "apiVersion: agents.recif.dev/v1"
      ∷ codes "kind: Agent"
      ∷ codes "metadata:"
      ∷ (codes "  name: " ++ slug_of a)
      ∷ codes "  namespace: team-default"
      ∷ codes "spec:"
      ∷ (codes "  name: \"" ++ (a.name ++ codes "\""))
      ∷ (storage
          ++ ((codes "  framework: " ++ or_default a.framework (codes "corail"))
              ∷ (codes "  strategy: " ++ or_default a.strategy (codes "agent-react"))
              ∷ (codes "  channel: " ++ or_default a.channel (codes "rest"))
              ∷ (codes "  modelType: " ++ or_default a.model_type (codes "vertex-ai"))
              ∷ (codes "  modelId: " ++ or_default a.model_id (codes "gemini-2.5-flash"))
              ∷ (codes "  image: " ++ or_default a.image (codes "corail:latest"))
              ∷ (codes "  replicas: " ++ decimal (Option.get_or a.replicas 1))
              ∷ []))

  -- buildAgentYaml
  unfoldable pub build_agent_yaml : Agent → Text
  build_agent_yaml a = join (codes "\n") (head_lines a ++ prompt_lines a)

pub data Severity : Type 0 where
  success error : Severity

pub record Message : Type 0 where
  pub type : Severity
  pub text : Text

pub record AgentPage : Type 0 where
  pub agent : Option Agent
  pub loading : Bool
  pub error : Option Text
  pub action_loading : Option Text
  pub action_msg : Option Message
  pub show_scale_input : Bool
  pub scale_value : ℕ

abbrev pub max_retries : ℕ
max_retries = 10

-- The `then` of loadAgent, on the agent, which is null where the response has no data.
unfoldable pub show_agent : Option Agent → AgentPage → AgentPage
show_agent none page = record page { agent = none; loading = false }
show_agent (some a) page = record page {
  agent = some a;
  scale_value = Option.get_or a.replicas 1;
  loading = false;
}

-- loadAgent from a number of retries on. `server` is what each round of requests gives, `none` where
-- one is thrown; the fuel bounds the rounds.
unfoldable pub load_agent : ℕ → (ℕ → Option (Option Agent)) → ℕ → AgentPage → AgentPage
load_agent zero server retries page = page
load_agent (suc fuel) server retries page =
    let again = load_agent fuel server (retries + 1) page in
    elim (server retries) [
      | some found ↦ show_agent found page
      | none ↦ if ltb (retries + 1) max_retries then again else record page {
        error = some (codes "Agent not found after waiting for deployment.");
        loading = false;
      }
    ]

-- A request that is answered with a status, or thrown with the message of an Error, if it is one.
pub data Sent : Type 0 where
  status : ℕ → Sent
  thrown : Option Text → Sent

abbrev pub reason : Option Text → Text
reason e = Option.get_or e (codes "Unknown error")

abbrev pub scale_failed : Text → AgentPage → AgentPage
scale_failed why page = record page {
  action_msg = some (record { type = error; text = codes "Failed to scale: " ++ why });
  action_loading = none;
}

-- `n !== 1 ? "s" : ""`
abbrev pub plural : ℕ → Text
plural n = if n == 1 then [] else codes "s"

abbrev pub with_replicas : ℕ → Option Agent → Option Agent
with_replicas n none = none
with_replicas n (some a) = some (record a { replicas = some n })

-- handleScale
unfoldable pub handle_scale : ℕ → Sent → AgentPage → AgentPage
handle_scale n sent page = elim page.agent [
  | none ↦ page
  | some a ↦ elim sent [
    | thrown e ↦ scale_failed (reason e) page
    | status s ↦
        if is_ok s
        then record page {
          agent = with_replicas n page.agent;
          action_msg = some (record {
            type = success;
            text =
                codes "Scaled to " ++ (decimal n ++ (codes " replica" ++ (plural n ++ codes ".")));
          });
          show_scale_input = false;
          action_loading = none;
        }
        else scale_failed (codes "HTTP " ++ decimal s) page
  ]
]
