-- ===== src/Skills/Panel/Served.antt =====
-- After any clicks the server has what was asked for, and nothing else.
use recif.Base.{
  ◌≡◌, refl, sym, ap, ap₂, ◌∙◌, inl, inr, Bool, true, false, not, ◌&&◌, ◌||◌, Bool-cases, Option,
  Option-cases, none, some, List, [], ◌∷◌, ◌++◌, filter, if◌then◌else◌, arith,
}
use recif.Text.{Text, text_eq}
use recif.Text.Equality.{text_eq_sound}
use recif.Skills.{Skill, SkilledAgent, SkillsPage, contains}
use recif.Skills.Panel.{
  current_skills, assigned_agents, is_listed, handle_assign_agent, handle_unassign_agent,
}
use recif.Skills.Panel.Assigned.{
  has_skill, Change, changed, replay, replay-ext, contains-append, contains-filter,
  is_listed-filter,
}
use recif.Skills.Panel.Clicks.{
  Click, show, assign, unassign, Keeps, click, asked, clicks, all_asked, IsFresh, Served,
}
use recif.Skills.Panel.Stored.{listed-fresh, store_skills-served, store_skills-refused}

module _ {S : Type 0} (agents_of : S → List SkilledAgent)
    (put_skills : Text → List Text → S → Option S) (keeps : Keeps agents_of put_skills) where
  -- The page with another skill, or none, in its panel.
  abbrev at_skill : Option Skill → SkillsPage × S → SkillsPage × S
  at_skill d w = (record w.0 { detail_skill = d }, w.1)

  abbrev Follows : Click → SkillsPage × S → Type 0
  Follows c w =
      IsFresh agents_of (click agents_of put_skills c w)
      × ((a k : Text)
          → Served agents_of (click agents_of put_skills c w) a k
            ≡ replay (asked agents_of put_skills c w) (Served agents_of w) a k)

  -- The agents are read as they were.
  granted-again :
      (id : Text) (s : Skill) (w : SkillsPage × S)
      → Served agents_of w id s.id ≡ true
      → (a k : Text)
      → Served agents_of w a k
        ≡ changed (record { agent = id; skill = s.id; granted = true }) (Served agents_of w) a k
  granted-again id s w has a k = elim (Bool-cases (text_eq a id)) [
    | inl same ↦ elim (Bool-cases (text_eq k s.id)) [
      | inl hit ↦
          rw (same, hit)
            (ap₂ (Served agents_of w) (text_eq_sound a id same) (text_eq_sound k s.id hit) ∙ has)
      | inr missed ↦ rw (same, missed) refl
    ]
    | inr other ↦ rw other refl
  ]

  granted-new :
      (id : Text) (s : Skill) (w : SkillsPage × S) (a k : Text)
      → (if text_eq a id
          then contains k (current_skills id (agents_of w.1) ++ s.id ∷ [])
          else Served agents_of w a k)
        ≡ changed (record { agent = id; skill = s.id; granted = true }) (Served agents_of w) a k
  granted-new id s w a k = elim (Bool-cases (text_eq a id)) [
    | inl same ↦ rw same (
        contains-append k s.id (current_skills id (agents_of w.1))
        ∙ ap (λ b. contains k (current_skills b (agents_of w.1)) || text_eq k s.id)
            (sym (text_eq_sound a id same))
        ∙ ground arith)
    | inr other ↦ rw other refl
  ]

  revoked :
      (id : Text) (s : Skill) (w : SkillsPage × S) (a k : Text)
      → (if text_eq a id
          then contains k (filter (λ y. not (text_eq y s.id)) (current_skills id (agents_of w.1)))
          else Served agents_of w a k)
        ≡ changed (record { agent = id; skill = s.id; granted = false }) (Served agents_of w) a k
  revoked id s w a k = elim (Bool-cases (text_eq a id)) [
    | inl same ↦ rw same (
        contains-filter k s.id (current_skills id (agents_of w.1))
        ∙ ap (λ b. contains k (current_skills b (agents_of w.1)) && not (text_eq k s.id))
            (sym (text_eq_sound a id same))
        ∙ ground arith)
    | inr other ↦ rw other refl
  ]

  assign-Follows :
      (s : Skill) (id : Text) (reached : Bool) (w : SkillsPage × S)
      → IsFresh agents_of w
      → Follows (assign id reached) (at_skill (some s) w)
  unfolding click asked replay handle_assign_agent
  assign-Follows s id reached w fresh = elim (Bool-cases (is_listed id w.0.agents)) [
    | inr unlisted ↦ rw unlisted (fresh, λ a k. refl)
    | inl listed ↦
        let same = listed-fresh agents_of put_skills keeps id w fresh listed in
        let known : is_listed id (agents_of w.1) ≡ true = ap (is_listed id) (sym same) ∙ listed in
        let skills = current_skills id w.0.agents ++ s.id ∷ [] in
        elim (Bool-cases (contains s.id (current_skills id w.0.agents))) [
          | inl old ↦
              let has : Served agents_of w id s.id ≡ true =
                ap (λ as'. has_skill as' id s.id) (sym same) ∙ old in
              elim (Option-cases (put_skills id skills w.1)) [
                | inl refused ↦ rw (listed, old, refused) (fresh, λ a k. refl)
                | inr (s', stored) ↦ rw (listed, old, stored) (fresh, granted-again id s w has)
              ]
          | inr new ↦ elim (Option-cases (put_skills id skills w.1)) [
            | inl refused ↦
                rw
                  (
                    listed,
                    new,
                    refused,
                    store_skills-refused agents_of put_skills keeps id skills reached
                        (at_skill (some s) w) refused,
                  )
                  (fresh, λ a k. refl)
            | inr (s', stored) ↦
                let (again, served) =
                  store_skills-served agents_of put_skills keeps id skills reached
                    (at_skill (some s) w) s' known stored in
                rw (listed, new, stored)
                  (
                    again,
                    λ a k.
                        served a k
                        ∙ ap
                            (λ as'.
                              if text_eq a id
                              then contains k (current_skills id as' ++ s.id ∷ [])
                              else Served agents_of w a k)
                            same
                        ∙ granted-new id s w a k,
                  )
          ]
        ]
  ]

  unassign-Follows :
      (s : Skill) (id : Text) (reached : Bool) (w : SkillsPage × S)
      → IsFresh agents_of w
      → Follows (unassign id reached) (at_skill (some s) w)
  unfolding click asked replay handle_unassign_agent assigned_agents
  unassign-Follows s id reached w fresh =
      elim (Bool-cases (is_listed id (assigned_agents s w.0.agents))) [
        | inr unlisted ↦ rw unlisted (fresh, λ a k. refl)
        | inl offered ↦
            let listed = is_listed-filter id _ w.0.agents offered in
            let same = listed-fresh agents_of put_skills keeps id w fresh listed in
            let known : is_listed id (agents_of w.1) ≡ true =
              ap (is_listed id) (sym same) ∙ listed in
            let skills = filter (λ k. not (text_eq k s.id)) (current_skills id w.0.agents) in
            elim (Option-cases (put_skills id skills w.1)) [
              | inl refused ↦
                  rw
                    (
                      offered,
                      refused,
                      store_skills-refused agents_of put_skills keeps id skills reached
                          (at_skill (some s) w) refused,
                    )
                    (fresh, λ a k. refl)
              | inr (s', stored) ↦
                  let (again, served) =
                    store_skills-served agents_of put_skills keeps id skills reached
                      (at_skill (some s) w) s' known stored in
                  rw (offered, stored)
                    (
                      again,
                      λ a k.
                          served a k
                          ∙ ap
                              (λ as'.
                                if text_eq a id
                                then contains k
                                    (filter (λ y. not (text_eq y s.id)) (current_skills id as'))
                                else Served agents_of w a k)
                              same
                          ∙ revoked id s w a k,
                    )
            ]
      ]

  follows :
      (c : Click) (d : Option Skill) (w : SkillsPage × S)
      → IsFresh agents_of w
      → Follows c (at_skill d w)
  unfolding click asked replay handle_assign_agent
  follows (show s) d w fresh = (fresh, λ a k. refl)
  follows (assign id reached) none w fresh = elim (Bool-cases (is_listed id w.0.agents)) [
    | inl listed ↦ rw listed (fresh, λ a k. refl)
    | inr unlisted ↦ rw unlisted (fresh, λ a k. refl)
  ]
  follows (assign id reached) (some s) w fresh = assign-Follows s id reached w fresh
  follows (unassign id reached) none w fresh = (fresh, λ a k. refl)
  follows (unassign id reached) (some s) w fresh = unassign-Follows s id reached w fresh

  replay-append :
      (cs ds : List Change) (has : Text → Text → Bool)
      → replay (cs ++ ds) has ≡ replay ds (replay cs has)
  unfolding replay
  replay-append [] ds has = refl
  replay-append (c ∷ cs) ds has = replay-append cs ds (changed c has)

  -- Whatever panels are opened and whatever is clicked there, from a page that shows the agents of
  -- the server: of the skills that the server has for its agents, exactly those pairs of an agent
  -- and a skill change that were clicked in a request that succeeded, in their order. This holds of a
  -- server that keeps what it is sent, and also where the agents cannot be read again.
  pub clicks-served :
      (cs : List Click) (w : SkillsPage × S)
      → IsFresh agents_of w
      → (a k : Text)
      → Served agents_of (clicks agents_of put_skills cs w) a k
        ≡ replay (all_asked agents_of put_skills cs w) (Served agents_of w) a k
  unfolding clicks all_asked replay
  clicks-served [] w fresh a k = refl
  clicks-served (c ∷ cs) w fresh a k =
      let (again, served) = follows c w.0.detail_skill w fresh in
      clicks-served cs (click agents_of put_skills c w) again a k
      ∙ replay-ext (all_asked agents_of put_skills cs (click agents_of put_skills c w)) _ _ served a
          k
      ∙ ap (λ f. f a k)
          (sym (
            replay-append (asked agents_of put_skills c w)
              (all_asked agents_of put_skills cs (click agents_of put_skills c w))
              (Served agents_of w)))
