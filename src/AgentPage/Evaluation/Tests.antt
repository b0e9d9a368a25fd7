-- ===== src/AgentPage/Evaluation/Tests.antt =====
-- Runs of the choice of two runs.
use recif.Base.{◌≡◌, refl, List, [], ◌∷◌, foldl}
use recif.Text.{Text, codes}
use recif.AgentPage.Evaluation.{choose_run}
use recif.AgentPage.Evaluation.Runs.{held, clicked, IsProper, choose_runs-held}

abbrev clicks : List Text
clicks = codes "r1" ∷ codes "r2" ∷ codes "r3" ∷ codes "r1" ∷ codes "r3" ∷ []

choose_runs-held_example :
    (foldl (λ c id. choose_run id c) (held []) clicks ≡ held (foldl clicked [] clicks))
    × IsProper (foldl clicked [] clicks)
choose_runs-held_example = choose_runs-held clicks [] (refl, (refl, (refl, (refl, (refl, tt))))) tt
