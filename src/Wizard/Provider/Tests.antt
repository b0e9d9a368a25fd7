-- ===== src/Wizard/Provider/Tests.antt =====
-- Runs of the choice of a model.
use recif.Base.{◌≡◌, refl, false, List, [], ◌∷◌}
use recif.Text.{codes, text_eq}
use recif.Wizard.Provider.{
  providers, ModelChoice, models_of, ollama, shown_models, is_shown, handle_provider_change, Choice,
  pick_provider, pick_model, choices,
}
use recif.Wizard.Provider.Fits.{Fits, choices-Fits}
use recif.Wizard.Provider.Unreached.{unreached, handle_provider_change-unreached}

abbrev at_first : ModelChoice
at_first = record {
  provider = codes "ollama";
  model_id = codes "qwen3.5:35b";
  ollama_models = [];
  ollama_loading = false;
  asked = 0;
}

abbrev three_picks : List Choice
three_picks =
    pick_provider (codes "anthropic") [] []
    ∷ pick_provider (codes "ollama") (codes "llama3") (codes "phi" ∷ [])
    ∷ pick_model (codes "phi")
    ∷ []

choices-Fits_example : Fits (choices three_picks at_first)
unfolding shown_models models_of providers text_eq
choices-Fits_example = choices-Fits three_picks at_first refl

handle_provider_change-unreached_example :
    ((unreached (handle_provider_change (codes "anthropic") at_first)).provider ≡ ollama)
    × (is_shown
          (unreached (handle_provider_change (codes "anthropic") at_first)).model_id
          (unreached (handle_provider_change (codes "anthropic") at_first))
        ≡ false)
unfolding providers text_eq
handle_provider_change-unreached_example =
    handle_provider_change-unreached (codes "anthropic") at_first refl refl refl
