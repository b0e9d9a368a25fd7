-- ===== src/Wizard/Tests.antt =====
-- A run through the wizard for a custom agent that is delivered as an archive.
use recif.Base.{◌≡◌, refl, true, false, none, [], ◌∷◌, All}
use recif.Text.{Text, codes, trim, trim_start, trim_end, cons_end, is_space}
use recif.Wizard.{
  ready, custom, inline, github, zip, Wizard, steps, step_filled, can_proceed, go_on,
  handle_type_change,
}
use recif.Wizard.Moves.{type_edit, name_edit, apply_edit, Moves, still, next, edited, went_on}
use recif.AgentPage.{dashed}
use recif.Wizard.Suggested.{typed_names, typed_names-first}
use recif.Wizard.Review.{Moves-filled}

abbrev fresh : Wizard
fresh = record {
  step = 0;
  agent_type = ready;
  name = [];
  provider = codes "ollama";
  model_id = codes "qwen3.5:35b";
  prompt_mode = inline;
  prompt_ref = [];
  system_prompt = codes "You are a helpful assistant.";
  tools = [];
  framework = codes "corail";
  delivery = zip;
  github_token = [];
  github_org = [];
  repo_name = [];
  creating = false;
  result = none;
  scaffold_result = none;
  location = none;
}

abbrev reviewing : Wizard
reviewing = record fresh { step = 6; agent_type = custom; name = codes "a" }

-- For these texts, a stand-in for toLowerCase.
abbrev as_is : Text → Text
as_is t = t

custom_run : Moves as_is fresh reviewing
unfolding go_on can_proceed apply_edit handle_type_change step_filled trim trim_start trim_end
    cons_end is_space
custom_run =
    next
      (next
        (next
          (next
            (next
              (next
                (next (next (still fresh) (edited (type_edit custom) fresh refl))
                  (went_on (record fresh { agent_type = custom })))
                (edited (name_edit (codes "a")) (record fresh { agent_type = custom; step = 1 })
                  refl))
              (went_on (record reviewing { step = 1 })))
            (went_on (record reviewing { step = 2 })))
          (went_on (record reviewing { step = 3 })))
        (went_on (record reviewing { step = 4 })))
      (went_on (record reviewing { step = 5 }))

Moves-filled_example : All (λ s. step_filled s reviewing ≡ true) (steps reviewing)
Moves-filled_example = Moves-filled as_is custom_run refl refl

-- The name "My agent", as it is typed: after "M" the repository has its name.
abbrev on_github : Wizard
on_github = record fresh { step = 1; delivery = github }

typed_names-first_example :
    typed_names as_is (codes "M" ∷ codes "My" ∷ codes "My agent" ∷ []) on_github
    ≡ record on_github { name = codes "My agent"; repo_name = codes "M" }
unfolding dashed is_space
typed_names-first_example =
    typed_names-first as_is (codes "M") (codes "My" ∷ codes "My agent" ∷ []) on_github refl refl
      refl
