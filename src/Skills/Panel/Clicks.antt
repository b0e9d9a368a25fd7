-- ===== src/Skills/Panel/Clicks.antt =====
-- Sequences of clicks on the panel of a skill, against a server that stores what it is sent.
use recif.Base.{
  ◌≡◌, ◌⊎◌, Bool, true, false, not, ◌&&◌, Option, none, some, List, [], ◌∷◌, ◌++◌, map, filter,
  if◌then◌else◌,
}
use recif.Text.{Text, text_eq}
use recif.Skills.{Skill, SkilledAgent, SkillsPage}
use recif.Skills.Panel.{
  current_skills, assigned_agents, is_listed, handle_assign_agent, handle_unassign_agent,
}
use recif.Skills.Panel.Assigned.{has_skill, with_skills, Change}

-- A skill's panel is shown or closed, an agent that the page lists is chosen and the skill assigned
-- to it, or the skill is taken from one that has it. The Boolean says whether the agents are reached
-- again behind a request that succeeds.
pub data Click : Type 0 where
  show : Option Skill → Click
  assign : Text → Bool → Click
  unassign : Text → Bool → Click

abbrev pub is_some {ℓ} : {A : Type ℓ} → Option A → Bool
is_some none = false
is_some (some _) = true

-- A server keeps the skills that it is sent, for that agent, and nothing else changes.
abbrev pub Keeps :
    {S : Type 0} → (S → List SkilledAgent) → (Text → List Text → S → Option S) → Type 0
Keeps {S} agents_of put_skills =
    (id : Text) (ks : List Text) (s s' : S)
    → put_skills id ks s ≡ some s'
    → agents_of s' ≡ map (with_skills id ks) (agents_of s)

module _ {S : Type 0} (agents_of : S → List SkilledAgent) where
  -- The page shows the agents of the server, or none since they could not be read.
  abbrev pub IsFresh : SkillsPage × S → Type 0
  IsFresh w = (w.0.agents ≡ agents_of w.1) ⊎ (w.0.agents ≡ [])

  abbrev pub Served : SkillsPage × S → (Text → Text → Bool)
  Served w = has_skill (agents_of w.1)

module _ {S : Type 0} (agents_of : S → List SkilledAgent)
    (put_skills : Text → List Text → S → Option S) where
  unfoldable pub click : Click → SkillsPage × S → SkillsPage × S
  click (show s) (page, server) = (record page { detail_skill = s }, server)
  click (assign id reached) (page, server) =
      if is_listed id page.agents
      then handle_assign_agent agents_of put_skills id reached (page, server)
      else (page, server)
  click (unassign id reached) (page, server) = elim page.detail_skill [
    | none ↦ (page, server)
    | some s ↦
        if is_listed id (assigned_agents s page.agents)
        then handle_unassign_agent agents_of put_skills id reached (page, server)
        else (page, server)
  ]

  -- What a click asks for, if the server answers the request that it makes.
  unfoldable pub asked : Click → SkillsPage × S → List Change
  asked (show _) _ = []
  asked (assign id _) (page, server) = elim page.detail_skill [
    | none ↦ []
    | some s ↦
        let skills = current_skills id page.agents ++ s.id ∷ [] in
        if is_listed id page.agents && is_some (put_skills id skills server)
        then record { agent = id; skill = s.id; granted = true } ∷ []
        else []
  ]
  asked (unassign id _) (page, server) = elim page.detail_skill [
    | none ↦ []
    | some s ↦
        let skills = filter (λ k. not (text_eq k s.id)) (current_skills id page.agents) in
        if is_listed id (assigned_agents s page.agents) && is_some (put_skills id skills server)
        then record { agent = id; skill = s.id; granted = false } ∷ []
        else []
  ]

  unfoldable pub clicks : List Click → SkillsPage × S → SkillsPage × S
  clicks [] w = w
  clicks (c ∷ cs) w = clicks cs (click c w)

  unfoldable pub all_asked : List Click → SkillsPage × S → List Change
  all_asked [] w = []
  all_asked (c ∷ cs) w = asked c w ++ all_asked cs (click c w)
