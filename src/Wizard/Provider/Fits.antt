-- ===== src/Wizard/Provider/Fits.antt =====
-- Whether the model that is chosen is one of the provider that is chosen.
use recif.Base.{
  All, ◌≡◌, ◌≢◌, refl, ap, ◌∙◌, inl, inr, Bool, true, false, not, ◌&&◌, any, Bool-cases, some, List,
  [], ◌∷◌, if◌then◌else◌,
}
use recif.Text.{Text, text_eq}
use recif.Text.Equality.{text_eq_refl}
use recif.Wizard.Provider.{
  LlmProvider, providers, ModelChoice, models_of, ollama, begin_ollama, end_ollama, first_model,
  handle_provider_change, shown_models, is_shown, is_known, Choice, pick_provider, pick_model,
  ask_again, choice, choices,
}

-- The model is one of those that are shown.
abbrev pub Fits : ModelChoice → Type 0
Fits c = is_shown c.model_id c ≡ true

if-Fits :
    (b : Bool) (c d : ModelChoice)
    → (b ≡ true → Fits c)
    → (b ≡ false → Fits d)
    → Fits (if b then c else d)
if-Fits true c d h k = h refl
if-Fits false c d h k = k refl

any-first : (m : Text) (ms : List Text) → any (text_eq m) (m ∷ ms) ≡ true
any-first m ms = rw (text_eq_refl m) refl

-- A provider of the list has a first model.
pub models_of-known :
    (id : Text) (ps : List LlmProvider)
    → All (λ (p : LlmProvider). p.models ≢ []) ps
    → any (λ (p : LlmProvider). text_eq p.id id) ps ≡ true
    → models_of id ps ≢ []
unfolding models_of
models_of-known id [] full known = absurd (cc known)
models_of-known id (p ∷ ps) (some_models, full) known = elim (Bool-cases (text_eq p.id id)) [
  | inl same ↦ rw same some_models
  | inr other ↦ rw other (models_of-known id ps full (rw other at known))
]

pub providers-full : All (λ (p : LlmProvider). p.models ≢ []) providers
unfolding providers
providers-full = (λ e. cc e, (λ e. cc e, (λ e. cc e, (λ e. cc e, (λ e. cc e, (λ e. cc e, tt))))))

end_ollama-Fits :
    (m : Text) (ms : List Text) (c : ModelChoice)
    → text_eq c.provider ollama ≡ true
    → Fits (end_ollama (some (m ∷ ms)) c)
unfolding end_ollama shown_models
end_ollama-Fits m ms c local = rw local (any-first m ms)

remote-shown :
    (c : ModelChoice)
    → text_eq c.provider ollama ≡ false
    → shown_models c ≡ models_of c.provider providers
unfolding shown_models
remote-shown c remote = shown c.ollama_models
  where
    shown :
        (ms : List Text)
        → (elim ms as (λ _. List Text) [
          | [] ↦ models_of c.provider providers
          | k ∷ ks ↦ if text_eq c.provider ollama then k ∷ ks else models_of c.provider providers
        ])
          ≡ models_of c.provider providers
    shown [] = refl
    shown (k ∷ ks) = rw remote refl

first_model-Fits :
    (c : ModelChoice) (ms : List Text)
    → text_eq c.provider ollama ≡ false
    → models_of c.provider providers ≡ ms
    → ms ≢ []
    → Fits (first_model ms c)
unfolding first_model
first_model-Fits c [] remote found some_models = absurd (some_models refl)
first_model-Fits c (m ∷ ms) remote found some_models =
    ap (any (text_eq m)) (remote-shown (record c { model_id = m }) remote ∙ found) ∙ any-first m ms

handle_provider_change-Fits :
    (id : Text) (c : ModelChoice)
    → is_known id ≡ true
    → text_eq id ollama ≡ false
    → Fits (handle_provider_change id c)
unfolding handle_provider_change
handle_provider_change-Fits id c known remote =
    rw (is_shown, remote)
      (first_model-Fits (record c { provider = id }) (models_of id providers) remote refl
        (models_of-known id providers providers-full known))

begin_ollama-provider : (c : ModelChoice) → (begin_ollama c).provider ≡ c.provider
unfolding begin_ollama
begin_ollama-provider c = refl

pub handle_provider_change-ollama :
    (id : Text) (c : ModelChoice)
    → text_eq id ollama ≡ true
    → handle_provider_change id c ≡ begin_ollama (record c { provider = id })
unfolding handle_provider_change
handle_provider_change-ollama id c local = rw local refl

pub handle_provider_change-remote :
    (id : Text) (c : ModelChoice)
    → text_eq id ollama ≡ false
    → handle_provider_change id c
      ≡ first_model (models_of id providers) (record c { provider = id })
unfolding handle_provider_change
handle_provider_change-remote id c remote = rw remote refl

handle_provider_change-provider :
    (id : Text) (c : ModelChoice)
    → text_eq id ollama ≡ true
    → text_eq (handle_provider_change id c).provider ollama ≡ true
handle_provider_change-provider id c local =
    ap (λ (d : ModelChoice). text_eq d.provider ollama) (handle_provider_change-ollama id c local)
    ∙ ap (λ t. text_eq t ollama) (begin_ollama-provider (record c { provider = id }))
    ∙ local

shown_models-pick :
    (m : Text) (c : ModelChoice) → shown_models (record c { model_id = m }) ≡ shown_models c
unfolding shown_models
shown_models-pick m c = refl

and-first : (b c : Bool) → (b && c) ≡ true → b ≡ true
and-first true c h = refl
and-first false c h = absurd (cc h)

not-false : (b : Bool) → not b ≡ false → b ≡ true
not-false true h = refl
not-false false h = absurd (cc h)

choice-Fits : (x : Choice) (c : ModelChoice) → Fits c → Fits (choice x c)
unfolding choice
choice-Fits (pick_provider id m ms) c h =
    if-Fits (not (is_known id)) c _ (λ _. h)
      (λ known.
        if-Fits (text_eq id ollama) _ _
          (λ local.
            end_ollama-Fits m ms (handle_provider_change id c)
              (handle_provider_change-provider id c local))
          (handle_provider_change-Fits id c (not-false (is_known id) known)))
choice-Fits (pick_model m) c h =
    if-Fits (is_shown m c) _ c (λ there. ap (any (text_eq m)) (shown_models-pick m c) ∙ there)
      (λ _. h)
choice-Fits (ask_again m ms) c h =
    if-Fits (text_eq c.provider ollama && not c.ollama_loading) _ c
      (λ local. end_ollama-Fits m ms (begin_ollama c) (
        ap (λ t. text_eq t ollama) (begin_ollama-provider c)
        ∙ and-first (text_eq c.provider ollama) (not c.ollama_loading) local))
      (λ _. h)

-- Whatever providers and models are picked, as long as Ollama answers with a model before the next
-- click where it is asked: the model that is chosen is one of those shown for the provider that is
-- chosen.
pub choices-Fits : (xs : List Choice) (c : ModelChoice) → Fits c → Fits (choices xs c)
unfolding choices
choices-Fits [] c h = h
choices-Fits (x ∷ xs) c h = choices-Fits xs (choice x c) (choice-Fits x c h)
