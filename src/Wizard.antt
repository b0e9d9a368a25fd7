-- ===== src/Wizard.antt =====
-- The wizard for a new agent, dashboard/src/app/(dashboard)/agents/new/page.tsx: its steps, the
-- guards between them, and what it says of the agent that it creates.
pub mod Moves
pub mod Order
pub mod Complete
pub mod Review
pub mod Suggested
pub mod Provider
pub mod Scaffold
mod Tests
use recif.Base.{
  ℕ, zero, suc, ◌+◌, ◌-◌, ◌==◌, Bool, true, false, not, ◌&&◌, Option, none, some, List, [], ◌∷◌,
  ◌++◌, length, get_elem?, filter, any, if◌then◌else◌,
}
use recif.Text.{Text, codes, text_eq, trim}
use recif.Json.{Json, str, nonempty, get, truthy}

pub data AgentType : Type 0 where
  ready custom : AgentType

pub data PromptMode : Type 0 where
  inline registry : PromptMode

pub data Delivery : Type 0 where
  github zip : Delivery

-- The names of READY_STEPS and CUSTOM_STEPS.
pub data StepName : Type 0 where
  type_step name_step provider_step prompt_step tools_step skills_step channel_step review_step
        framework_step :
      StepName
  capabilities_step delivery_step : StepName

abbrev pub ready_steps : List StepName
ready_steps =
    type_step ∷ name_step ∷ provider_step ∷ prompt_step ∷ tools_step ∷ skills_step ∷ channel_step
    ∷ review_step ∷ []

abbrev pub custom_steps : List StepName
custom_steps =
    type_step ∷ name_step ∷ framework_step ∷ capabilities_step ∷ channel_step ∷ delivery_step
    ∷ review_step ∷ []

pub record Wizard : Type 0 where
  pub step : ℕ
  pub agent_type : AgentType
  pub name : Text
  pub provider : Text
  pub model_id : Text
  pub prompt_mode : PromptMode
  pub prompt_ref : Text
  pub system_prompt : Text
  pub tools : List Text
  pub framework : Text
  pub delivery : Delivery
  pub github_token : Text
  pub github_org : Text
  pub repo_name : Text
  pub creating : Bool
  pub result : Option Text
  pub scaffold_result : Option Json
  pub location : Option Text

abbrev pub steps_of : AgentType → List StepName
steps_of ready = ready_steps
steps_of custom = custom_steps

abbrev pub steps : Wizard → List StepName
steps w = steps_of w.agent_type

abbrev pub last_step : Wizard → ℕ
last_step w = length (steps w) - 1

unfoldable pub handle_type_change : AgentType → Wizard → Wizard
handle_type_change type w = record w { agent_type = type; result = none; scaffold_result = none }

abbrev pub filled : Text → Bool
filled t = nonempty (trim t)

-- The cases of canProceed.
unfoldable pub step_filled : StepName → Wizard → Bool
step_filled name_step w = filled w.name
step_filled provider_step w = nonempty w.provider && nonempty w.model_id
step_filled prompt_step w = elim w.prompt_mode [
  | inline ↦ filled w.system_prompt
  | registry ↦ filled w.prompt_ref
]
step_filled framework_step w = nonempty w.framework
step_filled delivery_step w = elim w.delivery [
  | github ↦ filled w.github_token && (filled w.github_org && filled w.repo_name)
  | zip ↦ true
]
step_filled _ w = true

-- canProceed; a step that the list does not have is the default case.
unfoldable pub can_proceed : Wizard → Bool
can_proceed w = elim (get_elem? (steps w) w.step) [ some s ↦ step_filled s w | none ↦ true ]

-- The button that goes back, and the one that goes on: it is shown before the last step only, and
-- enabled if the step is filled.
unfoldable pub go_back : Wizard → Wizard
go_back w = record w { step = w.step - 1 }

unfoldable pub go_on : Wizard → Wizard
go_on w =
    if w.step == last_step w then w else if can_proceed w then record w { step = w.step + 1 } else w

-- The buttons of the tools: `selected ? prev.filter(…) : [...prev, id]`
unfoldable pub toggle_tool : Text → Wizard → Wizard
toggle_tool id w = record w {
  tools =
      if any (λ t. text_eq t id) w.tools
      then filter (λ t. not (text_eq t id)) w.tools
      else w.tools ++ id ∷ [];
}

-- What a request comes to: it is thrown, its body is no JSON, or a JSON body came with a status.
pub data Reply : Type 0 where
  rejected : Reply
  replied : ℕ → Option Json → Reply

-- `data?.data?.id`, where it is truthy
abbrev pub new_id : Json → Option Json
new_id body = elim (get (codes "data") body) [
  | some inner ↦ elim (get (codes "id") inner) [
    | some id ↦ if truthy (some id) then some id else none
    | none ↦ none
  ]
  | none ↦ none
]

abbrev pub create_failed : Text
create_failed = codes "Error creating agent. Check that the API is running."

-- handleCreateReady with the reply to the POST to /api/v1/agents. The deployment behind it, whatever
-- it comes to, leads to the list of agents.
unfoldable pub handle_create_ready : Reply → Wizard → Wizard
handle_create_ready rejected w = record w { result = some create_failed; creating = false }
handle_create_ready (replied status none) w = record w {
  result = some create_failed;
  creating = false;
}
handle_create_ready (replied status (some body)) w = elim (new_id body) [
  | some id ↦ record w { location = some (codes "/agents"); creating = false }
  | none ↦ record w { result = some (codes "Created!"); creating = false }
]
