-- ===== src/Skills/Panel/Stored.antt =====
-- What the requests of the panel leave on the server and on the page.
use recif.Base.{
  ◌≡◌, refl, ap, ◌∙◌, inl, inr, Bool, true, false, Bool-cases, Option, none, some, List,
  if◌then◌else◌,
}
use recif.Text.{Text, text_eq}
use recif.Skills.{SkilledAgent, SkillsPage, contains}
use recif.Skills.Panel.{is_listed, load_agents, store_skills}
use recif.Skills.Panel.Assigned.{has_skill, current_skills-put}
use recif.Skills.Panel.Clicks.{Keeps, IsFresh, Served}

module _ {S : Type 0} (agents_of : S → List SkilledAgent)
    (put_skills : Text → List Text → S → Option S) (keeps : Keeps agents_of put_skills) where
  pub listed-fresh :
      (id : Text) (w : SkillsPage × S)
      → IsFresh agents_of w
      → is_listed id w.0.agents ≡ true
      → w.0.agents ≡ agents_of w.1
  listed-fresh id w (inl same) h = same
  listed-fresh id w (inr empty) h = absurd (cc (h, ap (is_listed id) empty))

  load_agents-IsFresh :
      (reached : Bool) (page : SkillsPage) (server : S)
      → IsFresh agents_of (load_agents agents_of put_skills reached server page, server)
  unfolding load_agents
  load_agents-IsFresh true page server = inl refl
  load_agents-IsFresh false page server = inr refl

  has_skill-put :
      (id : Text) (ks : List Text) (w : SkillsPage × S) (s' : S)
      → is_listed id (agents_of w.1) ≡ true
      → put_skills id ks w.1 ≡ some s'
      → (a k : Text)
      → has_skill (agents_of s') a k
        ≡ (if text_eq a id then contains k ks else Served agents_of w a k)
  has_skill-put id ks w s' listed stored a k =
      ap (λ as'. has_skill as' a k) (keeps id ks w.1 s' stored)
      ∙ ap (contains k) (current_skills-put id a ks (agents_of w.1))
      ∙ rw listed
          (elim (Bool-cases (text_eq a id)) [ inl hit ↦ rw hit refl | inr missed ↦ rw missed refl ])

  -- A request that stores the skills of an agent that is listed.
  pub store_skills-served :
      (id : Text) (ks : List Text) (reached : Bool) (w : SkillsPage × S) (s' : S)
      → is_listed id (agents_of w.1) ≡ true
      → put_skills id ks w.1 ≡ some s'
      → IsFresh agents_of (store_skills agents_of put_skills id ks reached w)
        × ((a k : Text)
            → Served agents_of (store_skills agents_of put_skills id ks reached w) a k
              ≡ (if text_eq a id then contains k ks else Served agents_of w a k))
  unfolding store_skills
  store_skills-served id ks reached w s' listed stored =
      rw (stored, store_skills)
        (load_agents-IsFresh reached w.0 s', has_skill-put id ks w s' listed stored)

  pub store_skills-refused :
      (id : Text) (ks : List Text) (reached : Bool) (w : SkillsPage × S)
      → put_skills id ks w.1 ≡ none
      → store_skills agents_of put_skills id ks reached w ≡ w
  unfolding store_skills
  store_skills-refused id ks reached w refused = rw (store_skills, refused) refl
