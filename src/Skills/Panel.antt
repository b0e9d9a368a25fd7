-- ===== src/Skills/Panel.antt =====
-- The panel of one skill: which agents have it, and handleAssignAgent and handleUnassignAgent. The
-- server is a type of states, with the agents that it lists, and the PUT of the skills of an agent,
-- which is `none` where it is refused or not reached.
pub mod Assigned
pub mod Clicks
pub mod Stored
pub mod Served
use recif.Base.{
  Bool, true, false, Option, none, some, List, [], ◌∷◌, ◌++◌, not, ◌&&◌, any, filter, if◌then◌else◌,
}
use recif.Text.{Text, text_eq}
use recif.Skills.{Skill, SkilledAgent, SkillsPage, contains}

-- `agents.find((a) => a.id === agentId)?.skills || []`
unfoldable pub current_skills : Text → List SkilledAgent → List Text
current_skills id [] = []
current_skills id (a ∷ as') = if text_eq a.id id then a.skills else current_skills id as'

-- The agents that the panel offers for assigning a skill, and those that it lists as having it.
unfoldable pub unassigned_agents : Skill → List SkilledAgent → List SkilledAgent
unassigned_agents s = filter (λ (a : SkilledAgent). not (contains s.id a.skills))

unfoldable pub assigned_agents : Skill → List SkilledAgent → List SkilledAgent
assigned_agents s = filter (λ (a : SkilledAgent). contains s.id a.skills)

abbrev pub is_listed : Text → List SkilledAgent → Bool
is_listed id = any (λ (a : SkilledAgent). text_eq a.id id)

module _ {S : Type 0} (agents_of : S → List SkilledAgent)
    (put_skills : Text → List Text → S → Option S) where
  -- loadAgents; `reached` says whether its request is answered.
  unfoldable pub load_agents : Bool → S → SkillsPage → SkillsPage
  load_agents reached server page = record page {
    agents = if reached then agents_of server else [];
  }

  -- The request, and the agents read again if it succeeds; it throws otherwise.
  unfoldable pub store_skills : Text → List Text → Bool → SkillsPage × S → SkillsPage × S
  store_skills id skills reached (page, server) = elim (put_skills id skills server) [
    | some server' ↦ (load_agents reached server' page, server')
    | none ↦ (page, server)
  ]

  unfoldable pub handle_assign_agent : Text → Bool → SkillsPage × S → SkillsPage × S
  handle_assign_agent id reached (page, server) = elim page.detail_skill [
    | none ↦ (page, server)
    | some s ↦
        let current = current_skills id page.agents in
        if contains s.id current
        then (page, server)
        else store_skills id (current ++ s.id ∷ []) reached (page, server)
  ]

  unfoldable pub handle_unassign_agent : Text → Bool → SkillsPage × S → SkillsPage × S
  handle_unassign_agent id reached (page, server) = elim page.detail_skill [
    | none ↦ (page, server)
    | some s ↦
        store_skills id (filter (λ k. not (text_eq k s.id)) (current_skills id page.agents)) reached
          (page, server)
  ]
