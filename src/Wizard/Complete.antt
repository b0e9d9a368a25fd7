-- ===== src/Wizard/Complete.antt =====
-- Whoever reaches the last page of the wizard has filled all the others.
use recif.Base.{
  ℕ, ◌+◌, ◌-◌, ◌≤◌, ◌<◌, ◌==◌, ==_iff, ◌≡◌, refl, sym, ap, ◌∙◌, true, false, Bool-cases, inl, inr,
  some, List, [], ◌∷◌, length, get_elem?, All, arith,
}
use recif.Text.{Text}
use recif.Json.{nonempty}
use recif.Wizard.{
  StepName, Wizard, steps, steps_of, last_step, step_filled, can_proceed, handle_type_change,
  go_back, go_on, toggle_tool,
}
use recif.Wizard.Moves.{
  Edit, type_edit, name_edit, provider_edit, prompt_edit, tool_edit, framework_edit, delivery_edit,
  page_of, apply_edit, Move, edited, went_on, went_back, Moves, still, next, apply_edit-elsewhere,
  step_filled-step, ollama_came, ollama_answered, ollama_answered-filled,
}
use recif.Wizard.Order.{steps_of-apart, type_step-first}

-- Every page before the one that is shown is filled, and that one is in the list.
pub record IsInOrder (w : Wizard) : Type 0 where
  pub bound : w.step ≤ last_step w
  pub filled_before :
      (k : ℕ) (s : StepName) → k < w.step → get_elem? (steps w) k ≡ some s → step_filled s w ≡ true

go_back-IsInOrder : (w : Wizard) → IsInOrder w → IsInOrder (go_back w)
unfolding go_back
go_back-IsInOrder w h = record {
  bound = omega (arith, h.bound);
  filled_before =
      λ k s lt g. step_filled-step s (w.step - 1) w ∙ h.filled_before k s (omega (arith, lt)) g;
}

go_on-IsInOrder : (w : Wizard) → IsInOrder w → IsInOrder (go_on w)
unfolding go_on
go_on-IsInOrder w h = elim (Bool-cases (w.step == last_step w)) [
  | inl last ↦ rw last h
  | inr inside ↦ elim (Bool-cases (can_proceed w)) [
    | inl allowed ↦ rw (inside, allowed) (advanced inside allowed)
    | inr barred ↦ rw (inside, barred) h
  ]
]
  where
    here_filled :
        can_proceed w ≡ true
        → (s : StepName) → get_elem? (steps w) w.step ≡ some s
        → step_filled s w ≡ true
    here_filled allowed s g = unfold can_proceed in ground (arith, allowed, g)

    advanced :
        (w.step == last_step w) ≡ false
        → can_proceed w ≡ true
        → IsInOrder (record w { step = w.step + 1 })
    advanced inside allowed = record {
      bound = ground (arith, inside, h.bound);
      filled_before = λ k s lt g. elim (Bool-cases (k == w.step)) [
        | inl now ↦
            step_filled-step s (w.step + 1) w
            ∙ here_filled allowed s (ap (get_elem? (steps w)) (sym ((==_iff k w.step).0 now)) ∙ g)
        | inr earlier ↦
            step_filled-step s (w.step + 1) w ∙ h.filled_before k s (ground (arith, lt, earlier)) g
      ];
    }

ollama_answered-IsInOrder :
    (models : List Text) (w : Wizard)
    → All (λ m. nonempty m ≡ true) models
    → IsInOrder w
    → IsInOrder (ollama_answered models w)
unfolding ollama_answered
ollama_answered-IsInOrder [] w named h = h
ollama_answered-IsInOrder (m ∷ ms) w named h = record {
  bound = h.bound;
  filled_before = λ k s lt g. ollama_answered-filled (m ∷ ms) s w named (h.filled_before k s lt g);
}

module _ (lower : Text → Text) where
  -- An edit that keeps the list of pages and the page.
  kept_pages :
      (e : Edit) (w : Wizard)
      → get_elem? (steps w) w.step ≡ some (page_of e)
      → (apply_edit lower e w).agent_type ≡ w.agent_type
      → (apply_edit lower e w).step ≡ w.step
      → IsInOrder w
      → IsInOrder (apply_edit lower e w)
  kept_pages e w here same_type same_step h = record {
    bound = omega (arith, h.bound, same_step, ap (λ a. length (steps_of a)) same_type);
    filled_before = λ k s lt g.
        let before = ap (λ a. get_elem? (steps_of a) k) (sym same_type) ∙ g in
        apply_edit-elsewhere lower e s w
          (steps_of-apart w.agent_type k w.step s (page_of e) (omega (arith, lt, same_step)) before
            here)
          (h.filled_before k s (omega (arith, lt, same_step)) before);
  }

  apply_edit-IsInOrder :
      (e : Edit) (w : Wizard)
      → get_elem? (steps w) w.step ≡ some (page_of e)
      → IsInOrder w
      → IsInOrder (apply_edit lower e w)
  unfolding apply_edit handle_type_change toggle_tool
  apply_edit-IsInOrder (type_edit type) w here h =
      let first = type_step-first w.agent_type w.step here in
      record {
        bound = omega (arith, first);
        filled_before = λ k s lt g. absurd (omega (arith, lt, first));
      }
  apply_edit-IsInOrder (name_edit name) w here h = kept_pages (name_edit name) w here refl refl h
  apply_edit-IsInOrder (provider_edit p m) w here h =
      kept_pages (provider_edit p m) w here refl refl h
  apply_edit-IsInOrder (prompt_edit m s r) w here h =
      kept_pages (prompt_edit m s r) w here refl refl h
  apply_edit-IsInOrder (tool_edit id) w here h = kept_pages (tool_edit id) w here refl refl h
  apply_edit-IsInOrder (framework_edit f) w here h =
      kept_pages (framework_edit f) w here refl refl h
  apply_edit-IsInOrder (delivery_edit d t o r) w here h =
      kept_pages (delivery_edit d t o r) w here refl refl h

  Move-IsInOrder : {w w' : Wizard} → Move lower w w' → IsInOrder w → IsInOrder w'
  Move-IsInOrder (edited e w here) h = apply_edit-IsInOrder e w here h
  Move-IsInOrder (went_on w) h = go_on-IsInOrder w h
  Move-IsInOrder (went_back w) h = go_back-IsInOrder w h
  Move-IsInOrder (ollama_came models w named) h = ollama_answered-IsInOrder models w named h

  pub Moves-IsInOrder : {first w : Wizard} → Moves lower first w → IsInOrder first → IsInOrder w
  Moves-IsInOrder (still w) h = h
  Moves-IsInOrder (next moves move) h = Move-IsInOrder move (Moves-IsInOrder moves h)
