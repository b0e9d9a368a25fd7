-- ===== src/AgentPage/Loading.antt =====
-- Loading an agent: at most ten rounds of requests.
use recif.Base.{
  ℕ, zero, suc, ◌+◌, ◌<◌, ◌≤◌, ◌≡◌, refl, ◌∙◌, false, Option-cases, inl, inr, Option, none, some,
  arith,
}
use recif.Text.{codes}
use recif.AgentPage.{Agent, AgentPage, max_retries, show_agent, load_agent}

-- The first of `n` answers from `k` on that is one.
abbrev pub first_answer {ℓ} : {A : Type ℓ} → ℕ → (ℕ → Option A) → ℕ → Option A
first_answer zero server k = none
first_answer (suc n) server k = elim (server k) [
  | some a ↦ some a
  | none ↦ first_answer n server (k + 1)
]

-- The page where no round was answered.
abbrev pub not_found : AgentPage → AgentPage
not_found page = record page {
  error = some (codes "Agent not found after waiting for deployment.");
  loading = false;
}

abbrev pub show_answer : Option (Option Agent) → AgentPage → AgentPage
show_answer none page = not_found page
show_answer (some found) page = show_agent found page

module _ (server : ℕ → Option (Option Agent)) (page : AgentPage) where
  load_agent-found :
      (fuel k : ℕ) (found : Option Agent)
      → server k ≡ some found
      → load_agent (suc fuel) server k page ≡ show_agent found page
  unfolding load_agent
  load_agent-found fuel k found e = rw (load_agent, e) refl

  load_agent-missed :
      (fuel k : ℕ)
      → server k ≡ none
      → (k + 1) < max_retries
      → load_agent (suc fuel) server k page ≡ load_agent fuel server (k + 1) page
  unfolding load_agent
  load_agent-missed fuel k e h = ground (arith, e, h)

  load_agent-gave_up :
      (fuel k : ℕ)
      → server k ≡ none
      → max_retries ≤ k + 1
      → load_agent (suc fuel) server k page ≡ not_found page
  unfolding load_agent
  load_agent-gave_up fuel k e h = ground (arith, e, h)

  load_agent-from :
      (fuel k : ℕ)
      → k + suc fuel ≡ max_retries
      → load_agent (suc fuel) server k page ≡ show_answer (first_answer (suc fuel) server k) page
  load_agent-from zero k h = elim (Option-cases (server k)) [
    | inl missed ↦ load_agent-gave_up 0 k missed (omega (arith, h)) ∙ rw (first_answer, missed) refl
    | inr (found, e) ↦ load_agent-found 0 k found e ∙ rw (first_answer, e) refl
  ]
  load_agent-from (suc fuel) k h = elim (Option-cases (server k)) [
    | inl missed ↦
        load_agent-missed (suc fuel) k missed (omega (arith, h))
        ∙ load_agent-from fuel (k + 1) (omega (arith, h))
        ∙ rw (first_answer, missed) refl
    | inr (found, e) ↦ load_agent-found (suc fuel) k found e ∙ rw (first_answer, e) refl
  ]

-- Loading ends after at most ten rounds: the page shows the first answer among the first ten, or
-- else says that there is no agent.
pub load_agent-first :
    (server : ℕ → Option (Option Agent)) (page : AgentPage)
    → load_agent max_retries server 0 page ≡ show_answer (first_answer max_retries server 0) page
load_agent-first server page = load_agent-from server page 9 0 refl
