-- ===== src/Skills/Panel/Assigned.antt =====
-- What clicks on the panel of a skill mean for the server: which agent has which skill.
use recif.Base.{
  ◌≡◌, refl, sym, ap, ◌∙◌, inl, inr, Bool, true, false, not, ◌&&◌, ◌||◌, Bool-cases, List, [], ◌∷◌,
  ◌++◌, map, filter, if◌then◌else◌, arith,
}
use recif.Text.{Text, text_eq}
use recif.Text.Equality.{text_eq_sound, text_eq_comm}
use recif.Skills.{SkilledAgent, contains}
use recif.Skills.Panel.{current_skills, is_listed}

-- Whether an agent of the list has a skill.
abbrev pub has_skill : List SkilledAgent → Text → Text → Bool
has_skill agents a k = contains k (current_skills a agents)

-- An agent of the list is given other skills.
abbrev pub with_skills : Text → List Text → SkilledAgent → SkilledAgent
with_skills id ks a = if text_eq a.id id then record a { skills = ks } else a

-- The abstract view: one pair is granted or revoked, all others are as they were.
pub record Change : Type 0 where
  pub agent : Text
  pub skill : Text
  pub granted : Bool

abbrev pub changed : Change → (Text → Text → Bool) → Text → Text → Bool
changed c has a k = if text_eq a c.agent && text_eq k c.skill then c.granted else has a k

unfoldable pub replay : List Change → (Text → Text → Bool) → Text → Text → Bool
replay [] has = has
replay (c ∷ cs) has = replay cs (changed c has)

pub replay-ext :
    (cs : List Change) (f g : Text → Text → Bool)
    → ((a k : Text) → f a k ≡ g a k)
    → (a k : Text) → replay cs f a k ≡ replay cs g a k
unfolding replay
replay-ext [] f g h a k = h a k
replay-ext (c ∷ cs) f g h a k =
    replay-ext cs (changed c f) (changed c g)
      (λ b j. ap (λ x. if text_eq b c.agent && text_eq j c.skill then c.granted else x) (h b j)) a k

pub current_skills-put :
    (id j : Text) (ks : List Text) (as' : List SkilledAgent)
    → current_skills j (map (with_skills id ks) as')
      ≡ (if text_eq j id && is_listed id as' then ks else current_skills j as')
unfolding current_skills
current_skills-put id j ks [] = ground arith
current_skills-put id j ks (a ∷ as') = elim (Bool-cases (text_eq a.id id)) [
  | inl hit ↦ elim (Bool-cases (text_eq a.id j)) [
    | inl same ↦ rw (hit, same, ap (λ t. text_eq t id) (sym (text_eq_sound a.id j same)) ∙ hit) refl
    | inr other ↦
        rw (hit, other, current_skills-put id j ks as')
          (let differs : text_eq j id ≡ false =
              text_eq_comm j id ∙ ap (λ t. text_eq t j) (sym (text_eq_sound a.id id hit)) ∙ other in
            rw differs refl)
  ]
  | inr missed ↦ elim (Bool-cases (text_eq a.id j)) [
    | inl same ↦
        rw (missed, same, ap (λ t. text_eq t id) (sym (text_eq_sound a.id j same)) ∙ missed) refl
    | inr other ↦ rw (missed, other) (current_skills-put id j ks as')
  ]
]

pub contains-append :
    (k x : Text) (ks : List Text) → contains k (ks ++ x ∷ []) ≡ (contains k ks || text_eq k x)
unfolding contains
contains-append k x [] = ground arith
contains-append k x (y ∷ ks) = ground (arith, contains-append k x ks)

pub contains-filter :
    (k x : Text) (ks : List Text)
    → contains k (filter (λ y. not (text_eq y x)) ks) ≡ (contains k ks && not (text_eq k x))
unfolding contains
contains-filter k x [] = refl
contains-filter k x (y ∷ ks) = elim (Bool-cases (text_eq y x)) [
  | inl out ↦ rw out (
      contains-filter k x ks ∙ elim (Bool-cases (text_eq k y)) [
        | inl same ↦ rw (ap (λ t. text_eq t x) (text_eq_sound k y same) ∙ out) (ground arith)
        | inr other ↦ rw other refl
      ])
  | inr kept ↦ rw kept (elim (Bool-cases (text_eq k y)) [
    | inl same ↦ rw (same, ap (λ t. text_eq t x) (text_eq_sound k y same) ∙ kept) refl
    | inr other ↦ rw other (contains-filter k x ks)
  ])
]

pub is_listed-filter :
    (id : Text) (p : SkilledAgent → Bool) (as' : List SkilledAgent)
    → is_listed id (filter p as') ≡ true
    → is_listed id as' ≡ true
is_listed-filter id p [] h = h
is_listed-filter id p (a ∷ as') h = elim (Bool-cases (p a)) [
  | inl kept ↦ elim (Bool-cases (text_eq a.id id)) [
    | inl hit ↦ rw hit refl
    | inr missed ↦ rw missed (is_listed-filter id p as' (rw (kept, missed) at h))
  ]
  | inr out ↦ ground (arith, out, h, is_listed-filter id p as')
]
