-- ===== src/Wizard/Provider/Unreached.antt =====
-- What the page shows when Ollama is picked and not reached.
use recif.Base.{
  All, ◌≡◌, ◌≢◌, refl, ap, ◌∙◌, inl, inr, Bool, true, false, not, ◌||◌, any, Bool-cases, none, List,
  [], ◌∷◌,
}
use recif.Text.{Text, text_eq}
use recif.Text.Equality.{text_eq_refl, text_eq_sound}
use recif.Wizard.Provider.{
  LlmProvider, providers, ModelChoice, models_of, ollama, begin_ollama, end_ollama, first_model,
  handle_provider_change, shown_models, is_shown, is_known,
}
use recif.Wizard.Provider.Fits.{
  models_of-known, providers-full, handle_provider_change-ollama, handle_provider_change-remote,
}

not-true : (b : Bool) → not b ≡ true → b ≡ false
not-true true h = absurd (cc h)
not-true false h = refl

-- Whether the first model is none of Ollama's.
abbrev apart : List Text → Bool
apart [] = true
apart (m ∷ ms) = not (any (text_eq m) (models_of ollama providers))

models_of-apart :
    (id : Text) (ps : List LlmProvider)
    → All (λ (p : LlmProvider). (text_eq p.id ollama || apart p.models) ≡ true) ps
    → text_eq id ollama ≡ false
    → apart (models_of id ps) ≡ true
unfolding models_of
models_of-apart id [] others remote = refl
models_of-apart id (p ∷ ps) (other, others) remote = elim (Bool-cases (text_eq p.id id)) [
  | inl same ↦
      let far : text_eq p.id ollama ≡ false =
        ap (λ t. text_eq t ollama) (text_eq_sound p.id id same) ∙ remote in
      rw same (rw far at other)
  | inr differs ↦ rw differs (models_of-apart id ps others remote)
]

providers-apart :
    All (λ (p : LlmProvider). (text_eq p.id ollama || apart p.models) ≡ true) providers
unfolding providers models_of text_eq
providers-apart = (refl, (refl, (refl, (refl, (refl, (refl, tt))))))

first_model-apart :
    (c : ModelChoice) (ms : List Text)
    → apart ms ≡ true
    → ms ≢ []
    → any (text_eq (first_model ms c).model_id) (models_of ollama providers) ≡ false
unfolding first_model
first_model-apart c [] far some_models = absurd (some_models refl)
first_model-apart c (m ∷ ms) far some_models =
    not-true (any (text_eq m) (models_of ollama providers)) far

first_model-ollama_models :
    (ms : List Text) (c : ModelChoice) → (first_model ms c).ollama_models ≡ c.ollama_models
unfolding first_model
first_model-ollama_models [] c = refl
first_model-ollama_models (m ∷ ms) c = refl

-- Ollama is picked on a choice, asked, and not reached.
abbrev pub unreached : ModelChoice → ModelChoice
unreached c = end_ollama none (handle_provider_change ollama c)

unreached-shown :
    (c : ModelChoice)
    → c.ollama_models ≡ []
    → any (text_eq c.model_id) (models_of ollama providers) ≡ false
    → ((unreached c).provider ≡ ollama) × (is_shown (unreached c).model_id (unreached c) ≡ false)
unfolding end_ollama begin_ollama shown_models
unreached-shown c unknown foreign =
    rw (handle_provider_change-ollama ollama c (text_eq_refl ollama), unknown) (refl, foreign)

-- Where Ollama is picked behind another provider and is not reached, its model list being still
-- unknown, the page shows Ollama as chosen together with the model of the other provider, which is
-- none of those shown for Ollama.
pub handle_provider_change-unreached :
    (id : Text) (c : ModelChoice)
    → is_known id ≡ true
    → text_eq id ollama ≡ false
    → c.ollama_models ≡ []
    → ((unreached (handle_provider_change id c)).provider ≡ ollama)
      × (is_shown
            (unreached (handle_provider_change id c)).model_id
            (unreached (handle_provider_change id c))
          ≡ false)
handle_provider_change-unreached id c known remote unknown =
    let e = record c { provider = id } in
    let ms = models_of id providers in
    let picked : handle_provider_change id c ≡ first_model ms e =
      handle_provider_change-remote id c remote in
    rw picked (
      unreached-shown (first_model ms e) (first_model-ollama_models ms e ∙ unknown) (
        first_model-apart e ms (models_of-apart id providers providers-apart remote)
          (models_of-known id providers providers-full known)))
