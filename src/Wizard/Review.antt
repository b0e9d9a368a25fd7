-- ===== src/Wizard/Review.antt =====
-- What is known on the page from which the agent is created.
use recif.Base.{
  ℕ, zero, suc, ◌-◌, ◌<◌, ◌==◌, ==_iff, ◌≡◌, refl, sym, ap, ◌∙◌, true, Bool-cases, inl, inr, some,
  List, [], ◌∷◌, length, get_elem?, All, arith,
}
use recif.Text.{Text}
use recif.Wizard.{
  AgentType, ready, custom, StepName, review_step, Wizard, steps, steps_of, last_step, step_filled,
}
use recif.Wizard.Moves.{Moves}
use recif.Wizard.Order.{All-get_elem?}
use recif.Wizard.Complete.{IsInOrder, Moves-IsInOrder}

get_elem?-bound {ℓ} :
    {A : Type ℓ} (xs : List A) (k : ℕ) (x : A) → get_elem? xs k ≡ some x → k < length xs
get_elem?-bound [] k x g = cc g
get_elem?-bound (y ∷ xs) zero x g = omega arith
get_elem?-bound (y ∷ xs) (suc k) x g = omega (arith, get_elem?-bound xs k x g)

review-last :
    (a : AgentType) (s : StepName)
    → get_elem? (steps_of a) (length (steps_of a) - 1) ≡ some s
    → s ≡ review_step
review-last ready s g = ground (arith, g)
review-last custom s g = ground (arith, g)

review_step-filled : (w : Wizard) → step_filled review_step w ≡ true
unfolding step_filled
review_step-filled w = refl

-- However the user goes back and forth and edits the pages, and whenever an answer of Ollama comes
-- in, all of whose models have a name that is not empty, from a wizard that stands on its first page:
-- where the last page is shown, every page of the chosen type is filled as canProceed asks.
pub Moves-filled :
    (lower : Text → Text) {first w : Wizard}
    → Moves lower first w
    → first.step ≡ 0
    → w.step ≡ last_step w
    → All (λ s. step_filled s w ≡ true) (steps w)
Moves-filled lower {first} {w} moves start last =
    All-get_elem? (λ s. step_filled s w ≡ true) (steps w) each
  where
    in_order : IsInOrder w
    in_order = Moves-IsInOrder lower moves (record {
      bound = omega (arith, start);
      filled_before = λ k s lt g. absurd (omega (arith, start, lt));
    })

    each : (k : ℕ) (s : StepName) → get_elem? (steps w) k ≡ some s → step_filled s w ≡ true
    each k s g = elim (Bool-cases (k == last_step w)) [
      | inl there ↦
          ap (λ t. step_filled t w)
            (review-last w.agent_type s
              (ap (get_elem? (steps w)) (sym ((==_iff k (last_step w)).0 there)) ∙ g))
          ∙ review_step-filled w
      | inr before ↦
          in_order.filled_before k s (ground (arith, last, before, get_elem?-bound (steps w) k s g))
            g
    ]
