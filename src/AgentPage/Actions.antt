-- ===== src/AgentPage/Actions.antt =====
-- handleAgentAction of dashboard/src/app/(dashboard)/agents/[id]/page.tsx, with the read of the agent
-- that it starts after three seconds, beside handleScale.
pub mod Settled
use mathlib.Core.Option
use recif.Base.{ℕ, Option, none, some, List, [], ◌∷◌, ◌++◌}
use recif.Text.{Text, codes}
use recif.AgentPage.{
  Agent, Severity, success, error, Message, AgentPage, Sent, reason, handle_scale,
}

pub data Action : Type 0 where
  deploy stop restart : Action

unfoldable pub action_name : Action → Text
action_name deploy = codes "deploy"
action_name stop = codes "stop"
action_name restart = codes "restart"

unfoldable pub action_done : Action → Text
action_done deploy = codes "deployed"
action_done stop = codes "stopped"
action_done restart = codes "restarted"

-- The fields that the server sends of an agent; `none` for one that it leaves out.
pub record AgentPatch : Type 0 where
  pub id : Option Text
  pub name : Option Text
  pub framework : Option Text
  pub strategy : Option Text
  pub channel : Option Text
  pub model_type : Option Text
  pub model_id : Option Text
  pub image : Option Text
  pub storage : Option Text
  pub system_prompt : Option Text
  pub replicas : Option (Option ℕ)

-- `{ ...prev, ...updated }`
unfoldable pub patched : AgentPatch → Agent → Agent
patched u a = record {
  id = Option.get_or u.id a.id;
  name = Option.get_or u.name a.name;
  framework = Option.get_or u.framework a.framework;
  strategy = Option.get_or u.strategy a.strategy;
  channel = Option.get_or u.channel a.channel;
  model_type = Option.get_or u.model_type a.model_type;
  model_id = Option.get_or u.model_id a.model_id;
  image = Option.get_or u.image a.image;
  storage = Option.get_or u.storage a.storage;
  system_prompt = Option.get_or u.system_prompt a.system_prompt;
  replicas = Option.get_or u.replicas a.replicas;
}

-- `if (updated) setAgent((prev) => prev ? { ...prev, ...updated } : prev)`
unfoldable pub merge_updated : Option AgentPatch → Option Agent → Option Agent
merge_updated none prev = prev
merge_updated (some u) none = none
merge_updated (some u) (some a) = some (patched u a)

-- What deployAgent, stopAgent or restartAgent comes to: the agent of the response, if it has one, or
-- what it throws, with its message if that is an Error.
pub data ActionAnswer : Type 0 where
  returned : Option AgentPatch → ActionAnswer
  rejected : Option Text → ActionAnswer

-- handleAgentAction from its guard to the finally block
unfoldable pub handle_agent_action : Action → ActionAnswer → AgentPage → AgentPage
handle_agent_action action answer page = elim page.agent [
  | none ↦ page
  | some _ ↦ elim answer [
    | returned updated ↦ record page {
      agent = merge_updated updated page.agent;
      action_msg = some (record {
        type = success;
        text = codes "Agent " ++ (action_done action ++ codes " successfully.");
      });
      action_loading = none;
    }
    | rejected e ↦ record page {
      action_msg = some (record {
        type = error;
        text = codes "Failed to " ++ (action_name action ++ (codes ": " ++ reason e));
      });
      action_loading = none;
    }
  ]
]

-- The read after three seconds: `none` where it fails, and `some none` where it has no agent.
unfoldable pub refetch_agent : Option (Option Agent) → AgentPage → AgentPage
refetch_agent none page = page
refetch_agent (some found) page = record page { agent = found }

-- What happens on the page, in any order.
pub data PageEvent : Type 0 where
  acted : Action → ActionAnswer → PageEvent
  scaled : ℕ → Sent → PageEvent
  refetched : Option (Option Agent) → PageEvent

unfoldable pub handle : PageEvent → AgentPage → AgentPage
handle (acted action answer) page = handle_agent_action action answer page
handle (scaled n sent) page = handle_scale n sent page
handle (refetched found) page = refetch_agent found page

unfoldable pub run : List PageEvent → AgentPage → AgentPage
run [] page = page
run (e ∷ es) page = run es (handle e page)
