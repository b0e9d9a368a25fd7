-- ===== src/Evaluations/Runs.antt =====
-- The runs of dashboard/src/app/(dashboard)/evaluations/page.tsx: loadRuns, handleTrigger and the effect
-- on the agent that is selected.
use recif.Base.{
  ◌≡◌, ◌⊎◌, inl, inr, refl, Bool, true, false, Bool-cases, Option, none, some, List, [], ◌∷◌,
  if◌then◌else◌,
}
use recif.Text.{Text, codes}
use recif.Json.{nonempty}

-- A run stands for its identifier, a data set for its name.
pub record EvaluationsPage : Type 0 where
  pub selected_agent : Text
  pub runs : List Text
  pub datasets : List Text
  pub loading : Bool
  pub triggering : Bool

-- loadRuns from its answers on, which are none where one of the two requests throws.
unfoldable pub runs_loaded : Option (List Text × List Text) → EvaluationsPage → EvaluationsPage
runs_loaded none page = record page { runs = []; datasets = []; loading = false }
runs_loaded (some (r, d)) page = record page { runs = r; datasets = d; loading = false }

unfoldable pub dataset_name : List Text → Text
dataset_name [] = codes "golden-example"
dataset_name (d ∷ ds) = d

-- What the server lists for an agent, and a run that it is asked for, which it may refuse.
pub record EvaluationServer (S : Type 0) : Type 0 where
  pub runs_of : Text → S → List Text
  pub datasets_of : Text → S → List Text
  pub triggered : Text → Text → S → Option S

pub data EvaluationAct : Type 0 where
  select_one : Text → Bool → EvaluationAct
  trigger : Bool → EvaluationAct

module _ {S : Type 0} (server : EvaluationServer S) where
  unfoldable pub load_runs : Bool → S → EvaluationsPage → EvaluationsPage
  load_runs reached s page =
      if nonempty page.selected_agent
      then runs_loaded
          (if reached
            then some
                (server.runs_of page.selected_agent s, server.datasets_of page.selected_agent s)
            else none)
          page
      else page

  unfoldable pub handle_trigger : Bool → EvaluationsPage × S → EvaluationsPage × S
  handle_trigger reached (page, s) =
      if nonempty page.selected_agent
      then elim (server.triggered page.selected_agent (dataset_name page.datasets) s)
          as (λ _. EvaluationsPage × S) [
            | none ↦ (record page { triggering = false }, s)
            | some s' ↦ (load_runs reached s' (record page { triggering = false }), s')
          ]
      else (page, s)

  -- An act whose requests are answered before the next; another agent brings its runs.
  unfoldable pub evaluation_act : EvaluationAct → EvaluationsPage × S → EvaluationsPage × S
  evaluation_act (select_one agent reached) (page, s) =
      (load_runs reached s (record page { selected_agent = agent }), s)
  evaluation_act (trigger reached) w = handle_trigger reached w

  unfoldable pub evaluation_acts : List EvaluationAct → EvaluationsPage × S → EvaluationsPage × S
  evaluation_acts [] w = w
  evaluation_acts (a ∷ as') w = evaluation_acts as' (evaluation_act a w)

  -- No agent is selected, or its runs are shown, or none as they could not be read.
  abbrev pub ShowsRuns : EvaluationsPage × S → Type 0
  ShowsRuns w =
      (nonempty w.0.selected_agent ≡ false)
      ⊎ ((w.0.runs ≡ server.runs_of w.0.selected_agent w.1) ⊎ (w.0.runs ≡ []))

  load_runs-ShowsRuns :
      (reached : Bool) (s : S) (page : EvaluationsPage) → ShowsRuns (load_runs reached s page, s)
  unfolding load_runs runs_loaded
  load_runs-ShowsRuns true s page = elim (Bool-cases (nonempty page.selected_agent)) [
    | inl named ↦ rw named (inr (inl refl))
    | inr unnamed ↦ rw unnamed (inl unnamed)
  ]
  load_runs-ShowsRuns false s page = elim (Bool-cases (nonempty page.selected_agent)) [
    | inl named ↦ rw named (inr (inr refl))
    | inr unnamed ↦ rw unnamed (inl unnamed)
  ]

  handle_trigger-ShowsRuns :
      (reached : Bool) (page : EvaluationsPage) (s : S)
      → ShowsRuns (page, s)
      → ShowsRuns (handle_trigger reached (page, s))
  unfolding handle_trigger
  handle_trigger-ShowsRuns reached page s h =
      asked (nonempty page.selected_agent)
        (server.triggered page.selected_agent (dataset_name page.datasets) s)
    where
      asked :
          (b : Bool) (o : Option S)
          → ShowsRuns (
              if b
              then elim o as (λ _. EvaluationsPage × S) [
                | none ↦ (record page { triggering = false }, s)
                | some s' ↦ (load_runs reached s' (record page { triggering = false }), s')
              ]
              else (page, s))
      asked false o = h
      asked true none = h
      asked true (some s') = load_runs-ShowsRuns reached s' (record page { triggering = false })

  -- Whatever agents are selected and evaluations started, each request answered or refused before the
  -- next act: the runs that are shown are those that the server lists for the agent that is selected,
  -- or none if they could not be read.
  pub evaluation_acts-ShowsRuns :
      (as' : List EvaluationAct) (w : EvaluationsPage × S)
      → ShowsRuns w
      → ShowsRuns (evaluation_acts as' w)
  unfolding evaluation_acts evaluation_act
  evaluation_acts-ShowsRuns [] w h = h
  evaluation_acts-ShowsRuns (select_one agent reached ∷ as') (page, s) h =
      evaluation_acts-ShowsRuns as' _
        (load_runs-ShowsRuns reached s (record page { selected_agent = agent }))
  evaluation_acts-ShowsRuns (trigger reached ∷ as') (page, s) h =
      evaluation_acts-ShowsRuns as' _ (handle_trigger-ShowsRuns reached page s h)
