-- ===== src/Wizard/Provider.antt =====
-- The choice of a provider and a model in the wizard, with the models that Ollama is asked for.
pub mod Fits
pub mod Unreached
mod Tests
use recif.Base.{
  ℕ, zero, suc, ◌+◌, ◌-◌, ◌==◌, Bool, true, false, not, ◌&&◌, any, Option, none, some, List, [],
  ◌∷◌, if◌then◌else◌,
}
use recif.Text.{Text, codes, text_eq}

pub record LlmProvider : Type 0 where
  pub id : Text
  pub models : List Text

-- PROVIDERS
unfoldable pub providers : List LlmProvider
providers =
    record {
      id = codes "ollama";
      models =
          codes "qwen3.5:35b"
          ∷ codes "qwen3.5:4b"
          ∷ codes "llama3.3:70b"
          ∷ codes "mistral:7b"
          ∷ codes "deepseek-r1:32b"
          ∷ [];
    }
    ∷ record {
      id = codes "anthropic";
      models =
          codes "claude-sonnet-4-20250514"
          ∷ codes "claude-opus-4-20250514"
          ∷ codes "claude-haiku-4-20250506"
          ∷ [];
    }
    ∷ record {
      id = codes "openai";
      models = codes "gpt-4o" ∷ codes "gpt-4" ∷ codes "gpt-4o-mini" ∷ codes "o3-mini" ∷ [];
    }
    ∷ record {
      id = codes "vertex-ai";
      models = codes "gemini-2.5-flash" ∷ codes "gemini-2.5-pro" ∷ codes "gemini-2.0-flash" ∷ [];
    }
    ∷ record {
      id = codes "bedrock";
      models =
          codes "anthropic.claude-sonnet-4-20250514-v1:0"
          ∷ codes "anthropic.claude-haiku-4-20250506-v1:0"
          ∷ codes "amazon.titan-text-premier-v2:0"
          ∷ [];
    }
    ∷ record {
      id = codes "google-ai";
      models = codes "gemini-2.5-flash" ∷ codes "gemini-2.5-pro" ∷ codes "gemini-2.0-flash" ∷ [];
    }
    ∷ []

-- `asked` is the number of requests to Ollama that run.
pub record ModelChoice : Type 0 where
  pub provider : Text
  pub model_id : Text
  pub ollama_models : List Text
  pub ollama_loading : Bool
  pub asked : ℕ

-- The models of `PROVIDERS.find((p) => p.id === id)`
unfoldable pub models_of : Text → List LlmProvider → List Text
models_of id [] = []
models_of id (p ∷ ps) = if text_eq p.id id then p.models else models_of id ps

abbrev pub ollama : Text
ollama = codes "ollama"

-- fetchOllamaModels up to its request, and from its answer on: `none` where the status is not that of
-- a success or the request throws.
unfoldable pub begin_ollama : ModelChoice → ModelChoice
begin_ollama c = record c { ollama_loading = true; asked = c.asked + 1 }

unfoldable pub end_ollama : Option (List Text) → ModelChoice → ModelChoice
end_ollama none c = record c { ollama_loading = false; asked = c.asked - 1 }
end_ollama (some []) c = record c {
  ollama_models = [];
  ollama_loading = false;
  asked = c.asked - 1;
}
end_ollama (some (m ∷ ms)) c = record c {
  ollama_models = m ∷ ms;
  model_id = m;
  ollama_loading = false;
  asked = c.asked - 1;
}

-- Another provider than Ollama: its first model, if it has one.
unfoldable pub first_model : List Text → ModelChoice → ModelChoice
first_model [] c = c
first_model (m ∷ ms) c = record c { model_id = m }

unfoldable pub handle_provider_change : Text → ModelChoice → ModelChoice
handle_provider_change id c =
    if text_eq id ollama
    then begin_ollama (record c { provider = id })
    else first_model (models_of id providers) (record c { provider = id })

-- The models that are shown as buttons.
unfoldable pub shown_models : ModelChoice → List Text
shown_models c = elim c.ollama_models as (λ _. List Text) [
  | [] ↦ models_of c.provider providers
  | m ∷ ms ↦ if text_eq c.provider ollama then m ∷ ms else models_of c.provider providers
]

abbrev pub is_shown : Text → ModelChoice → Bool
is_shown m c = any (text_eq m) (shown_models c)

abbrev pub is_known : Text → Bool
is_known id = any (λ (p : LlmProvider). text_eq p.id id) providers

-- What the user does, with the answer of Ollama, of at least one model, where it is asked: the button
-- of a provider, that of a model, and the one that asks again.
pub data Choice : Type 0 where
  pick_provider : Text → Text → List Text → Choice
  pick_model : Text → Choice
  ask_again : Text → List Text → Choice

unfoldable pub choice : Choice → ModelChoice → ModelChoice
choice (pick_provider id m ms) c =
    if not (is_known id)
    then c
    else if text_eq id ollama
    then end_ollama (some (m ∷ ms)) (handle_provider_change id c)
    else handle_provider_change id c
choice (pick_model m) c = if is_shown m c then record c { model_id = m } else c
choice (ask_again m ms) c =
    if text_eq c.provider ollama && not c.ollama_loading
    then end_ollama (some (m ∷ ms)) (begin_ollama c)
    else c

unfoldable pub choices : List Choice → ModelChoice → ModelChoice
choices [] c = c
choices (x ∷ xs) c = choices xs (choice x c)
