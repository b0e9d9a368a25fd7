-- ===== src/Wizard/Order.antt =====
-- The pages of the wizard come in one order, so no page comes twice.
use recif.Base.{
  ℕ, zero, suc, ◌+◌, ◌≤◌, ◌<◌, ◌≡◌, refl, ap, ◌≢◌, some, List, [], ◌∷◌, get_elem?, All, arith,
}
use recif.Wizard.{
  AgentType, ready, custom, StepName, type_step, name_step, provider_step, prompt_step, tools_step,
  skills_step, channel_step, review_step, framework_step, capabilities_step, delivery_step,
  steps_of,
}

-- A number for each page that grows along both lists.
abbrev pub number : StepName → ℕ
number type_step = 0
number name_step = 1
number provider_step = 2
number prompt_step = 3
number tools_step = 4
number skills_step = 5
number framework_step = 6
number capabilities_step = 7
number channel_step = 8
number delivery_step = 9
number review_step = 10

abbrev Rises : ℕ → List StepName → Type 0
Rises bound [] = Unit
Rises bound (s ∷ ss) = (bound ≤ number s) × Rises (number s + 1) ss

steps_of-Rises : (a : AgentType) → Rises 0 (steps_of a)
steps_of-Rises ready = omega arith
steps_of-Rises custom = omega arith

get_elem?-Rises :
    (bound : ℕ) (ss : List StepName) (i : ℕ) (t : StepName)
    → Rises bound ss
    → get_elem? ss i ≡ some t
    → bound ≤ number t
get_elem?-Rises bound [] i t _ g = cc g
get_elem?-Rises bound (s ∷ ss) zero t (h, _) g = ground (arith, h, g)
get_elem?-Rises bound (s ∷ ss) (suc i) t (h, r) g =
    omega (arith, h, get_elem?-Rises (number s + 1) ss i t r g)

Rises-apart :
    (bound : ℕ) (ss : List StepName) (k i : ℕ) (s t : StepName)
    → Rises bound ss
    → k < i
    → get_elem? ss k ≡ some s
    → get_elem? ss i ≡ some t
    → number s < number t
Rises-apart bound [] k i s t _ lt g h = cc g
Rises-apart bound (x ∷ ss) zero zero s t (_, r) lt g h = absurd (omega (arith, lt))
Rises-apart bound (x ∷ ss) zero (suc i) s t (_, r) lt g h =
    ground (arith, get_elem?-Rises (number x + 1) ss i t r h, g)
Rises-apart bound (x ∷ ss) (suc k) zero s t (_, r) lt g h = absurd (omega (arith, lt))
Rises-apart bound (x ∷ ss) (suc k) (suc i) s t (_, r) lt g h =
    Rises-apart (number x + 1) ss k i s t r (omega (arith, lt)) g h

pub steps_of-apart :
    (a : AgentType) (k i : ℕ) (s t : StepName)
    → k < i
    → get_elem? (steps_of a) k ≡ some s
    → get_elem? (steps_of a) i ≡ some t
    → s ≢ t
steps_of-apart a k i s t lt g h same =
    absurd
      (omega (arith, Rises-apart 0 (steps_of a) k i s t (steps_of-Rises a) lt g h, ap number same))

-- The first page alone chooses the type.
pub type_step-first : (a : AgentType) (k : ℕ) → get_elem? (steps_of a) k ≡ some type_step → k ≡ 0
type_step-first a zero g = refl
type_step-first a (suc k) g =
    absurd (steps_of-apart a 0 (suc k) type_step type_step (omega arith) (first a) g refl)
  where
    first : (a : AgentType) → get_elem? (steps_of a) 0 ≡ some type_step
    first ready = refl
    first custom = refl

pub All-get_elem? :
    (P : StepName → Type 0) (ss : List StepName)
    → ((k : ℕ) (s : StepName) → get_elem? ss k ≡ some s → P s)
    → All P ss
All-get_elem? P [] h = tt
All-get_elem? P (s ∷ ss) h = (h 0 s refl, All-get_elem? P ss (λ k t g. h (suc k) t g))
