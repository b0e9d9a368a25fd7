-- ===== src/Wizard/Moves.antt =====
-- The steps of the wizard as a relation: what the user can do on each page.
use recif.Base.{
  ℕ, ◌≡◌, refl, ◌≢◌, Bool, true, false, ◌&&◌, some, List, [], ◌∷◌, get_elem?, All, if◌then◌else◌,
  arith,
}
use recif.Text.{Text, trim, trim_start, trim_end}
use recif.Json.{nonempty}
use recif.AgentPage.{dashed}
use recif.Wizard.{
  AgentType, PromptMode, Delivery, github, zip, filled, StepName, type_step, name_step,
  provider_step, prompt_step, tools_step, skills_step, channel_step, review_step, framework_step,
  capabilities_step, delivery_step, Wizard, steps, handle_type_change, step_filled, go_back, go_on,
  toggle_tool,
}

-- An edit on a page sets the fields of that page, to any values, those of one page at once.
pub data Edit : Type 0 where
  type_edit : AgentType → Edit
  name_edit : Text → Edit
  provider_edit : Text → Text → Edit
  prompt_edit : PromptMode → Text → Text → Edit
  tool_edit : Text → Edit
  framework_edit : Text → Edit
  delivery_edit : Delivery → Text → Text → Text → Edit

-- The page that an edit is made on.
abbrev pub page_of : Edit → StepName
page_of (type_edit _) = type_step
page_of (name_edit _) = name_step
page_of (provider_edit _ _) = provider_step
page_of (prompt_edit _ _ _) = prompt_step
page_of (tool_edit _) = tools_step
page_of (framework_edit _) = framework_step
page_of (delivery_edit _ _ _ _) = delivery_step

-- The fields of the pages that are set as they are: by handleProviderChange and a click on a model, by
-- the two modes of the prompt and their inputs, by the frameworks, and by the delivery.
abbrev pub change_provider : Text → Text → Wizard → Wizard
change_provider provider model_id w = record w { provider = provider; model_id = model_id }

abbrev pub change_prompt : PromptMode → Text → Text → Wizard → Wizard
change_prompt mode system_prompt prompt_ref w = record w {
  prompt_mode = mode;
  system_prompt = system_prompt;
  prompt_ref = prompt_ref;
}

abbrev pub change_framework : Text → Wizard → Wizard
change_framework framework w = record w { framework = framework }

abbrev pub change_delivery : Delivery → Text → Text → Text → Wizard → Wizard
change_delivery delivery token org repo w = record w {
  delivery = delivery;
  github_token = token;
  github_org = org;
  repo_name = repo;
}

-- fetchOllamaModels from an answer on, which may come when any page is shown.
unfoldable pub ollama_answered : List Text → Wizard → Wizard
ollama_answered [] w = w
ollama_answered (m ∷ _) w = record w { model_id = m }

-- `lower` is toLowerCase.
module _ (lower : Text → Text) where
  -- What the input of the name makes of the name of the repository: where the agent is to be delivered
  -- to GitHub, an empty one becomes the typed name in lower case, with a dash for every run of spaces.
  abbrev pub suggested_repo : Delivery → Text → Text → Text
  suggested_repo github name repo = if nonempty repo then repo else dashed false (lower name)
  suggested_repo zip name repo = repo

  abbrev pub change_name : Text → Wizard → Wizard
  change_name name w = record w {
    name = name;
    repo_name = suggested_repo w.delivery name w.repo_name;
  }

  unfoldable pub apply_edit : Edit → Wizard → Wizard
  apply_edit (type_edit type) w = handle_type_change type w
  apply_edit (name_edit name) w = change_name name w
  apply_edit (provider_edit provider model_id) w = change_provider provider model_id w
  apply_edit (prompt_edit mode system_prompt prompt_ref) w =
      change_prompt mode system_prompt prompt_ref w
  apply_edit (tool_edit id) w = toggle_tool id w
  apply_edit (framework_edit framework) w = change_framework framework w
  apply_edit (delivery_edit delivery token org repo) w = change_delivery delivery token org repo w

  pub data Move : Wizard → Wizard → Type 0 where
    edited :
        (e : Edit) (w : Wizard)
        → get_elem? (steps w) w.step ≡ some (page_of e)
        → Move w (apply_edit e w)
    went_on : (w : Wizard) → Move w (go_on w)
    went_back : (w : Wizard) → Move w (go_back w)
    ollama_came :
        (models : List Text) (w : Wizard)
        → All (λ m. nonempty m ≡ true) models
        → Move w (ollama_answered models w)

  pub data Moves : Wizard → Wizard → Type 0 where
    still : (w : Wizard) → Moves w w
    next : {first w w' : Wizard} → Moves first w → Move w w' → Moves first w'

  suggested_repo-filled :
      (d : Delivery) (token org name repo : Text)
      → elim d [ github ↦ filled token && (filled org && filled repo) | zip ↦ true ] ≡ true
      → elim d as (λ _. Bool) [
        | github ↦ filled token && (filled org && filled (suggested_repo d name repo))
        | zip ↦ true
      ]
        ≡ true
  unfolding trim trim_start trim_end
  suggested_repo-filled github token org name [] h = absurd (ground (arith, h))
  suggested_repo-filled github token org name (c ∷ s) h = h
  suggested_repo-filled zip token org name repo h = refl

  -- An edit leaves the other pages filled.
  pub apply_edit-elsewhere :
      (e : Edit) (s : StepName) (w : Wizard)
      → s ≢ page_of e
      → step_filled s w ≡ true
      → step_filled s (apply_edit e w) ≡ true
  unfolding apply_edit step_filled handle_type_change toggle_tool
  apply_edit-elsewhere e type_step w h full = full
  apply_edit-elsewhere (type_edit type) name_step w h full = full
  apply_edit-elsewhere (name_edit name) name_step w h full = absurd (h refl)
  apply_edit-elsewhere (provider_edit provider model_id) name_step w h full = full
  apply_edit-elsewhere (prompt_edit mode system_prompt prompt_ref) name_step w h full = full
  apply_edit-elsewhere (tool_edit id) name_step w h full = full
  apply_edit-elsewhere (framework_edit framework) name_step w h full = full
  apply_edit-elsewhere (delivery_edit delivery token org repo) name_step w h full = full
  apply_edit-elsewhere (type_edit type) provider_step w h full = full
  apply_edit-elsewhere (name_edit name) provider_step w h full = full
  apply_edit-elsewhere (provider_edit provider model_id) provider_step w h full = absurd (h refl)
  apply_edit-elsewhere (prompt_edit mode system_prompt prompt_ref) provider_step w h full = full
  apply_edit-elsewhere (tool_edit id) provider_step w h full = full
  apply_edit-elsewhere (framework_edit framework) provider_step w h full = full
  apply_edit-elsewhere (delivery_edit delivery token org repo) provider_step w h full = full
  apply_edit-elsewhere (type_edit type) prompt_step w h full = full
  apply_edit-elsewhere (name_edit name) prompt_step w h full = full
  apply_edit-elsewhere (provider_edit provider model_id) prompt_step w h full = full
  apply_edit-elsewhere (prompt_edit mode system_prompt prompt_ref) prompt_step w h full =
      absurd (h refl)
  apply_edit-elsewhere (tool_edit id) prompt_step w h full = full
  apply_edit-elsewhere (framework_edit framework) prompt_step w h full = full
  apply_edit-elsewhere (delivery_edit delivery token org repo) prompt_step w h full = full
  apply_edit-elsewhere e tools_step w h full = full
  apply_edit-elsewhere e skills_step w h full = full
  apply_edit-elsewhere (type_edit type) framework_step w h full = full
  apply_edit-elsewhere (name_edit name) framework_step w h full = full
  apply_edit-elsewhere (provider_edit provider model_id) framework_step w h full = full
  apply_edit-elsewhere (prompt_edit mode system_prompt prompt_ref) framework_step w h full = full
  apply_edit-elsewhere (tool_edit id) framework_step w h full = full
  apply_edit-elsewhere (framework_edit framework) framework_step w h full = absurd (h refl)
  apply_edit-elsewhere (delivery_edit delivery token org repo) framework_step w h full = full
  apply_edit-elsewhere e capabilities_step w h full = full
  apply_edit-elsewhere e channel_step w h full = full
  apply_edit-elsewhere (type_edit type) delivery_step w h full = full
  apply_edit-elsewhere (name_edit name) delivery_step w h full =
      suggested_repo-filled w.delivery w.github_token w.github_org name w.repo_name full
  apply_edit-elsewhere (provider_edit provider model_id) delivery_step w h full = full
  apply_edit-elsewhere (prompt_edit mode system_prompt prompt_ref) delivery_step w h full = full
  apply_edit-elsewhere (tool_edit id) delivery_step w h full = full
  apply_edit-elsewhere (framework_edit framework) delivery_step w h full = full
  apply_edit-elsewhere (delivery_edit delivery token org repo) delivery_step w h full =
      absurd (h refl)
  apply_edit-elsewhere e review_step w h full = full

-- Nor does an answer of Ollama empty a page.
pub ollama_answered-filled :
    (models : List Text) (s : StepName) (w : Wizard)
    → All (λ m. nonempty m ≡ true) models
    → step_filled s w ≡ true
    → step_filled s (ollama_answered models w) ≡ true
unfolding ollama_answered step_filled
ollama_answered-filled [] s w named full = full
ollama_answered-filled (m ∷ _) provider_step w (named, _) full = ground (arith, named, full)
ollama_answered-filled (m ∷ _) type_step w named full = full
ollama_answered-filled (m ∷ _) name_step w named full = full
ollama_answered-filled (m ∷ _) prompt_step w named full = full
ollama_answered-filled (m ∷ _) tools_step w named full = full
ollama_answered-filled (m ∷ _) skills_step w named full = full
ollama_answered-filled (m ∷ _) channel_step w named full = full
ollama_answered-filled (m ∷ _) review_step w named full = full
ollama_answered-filled (m ∷ _) framework_step w named full = full
ollama_answered-filled (m ∷ _) capabilities_step w named full = full
ollama_answered-filled (m ∷ _) delivery_step w named full = full

-- Nor does it matter to a page which one is shown.
pub step_filled-step :
    (s : StepName) (k : ℕ) (w : Wizard) → step_filled s (record w { step = k }) ≡ step_filled s w
unfolding step_filled
step_filled-step type_step k w = refl
step_filled-step name_step k w = refl
step_filled-step provider_step k w = refl
step_filled-step prompt_step k w = refl
step_filled-step tools_step k w = refl
step_filled-step skills_step k w = refl
step_filled-step framework_step k w = refl
step_filled-step capabilities_step k w = refl
step_filled-step channel_step k w = refl
step_filled-step delivery_step k w = refl
step_filled-step review_step k w = refl
