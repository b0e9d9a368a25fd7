-- ===== src/Evaluations.antt =====
-- The page of the evaluations: the choice of two runs to compare, dashboard/src/app/(dashboard)/evaluations/page.tsx.
pub mod Toggle
pub mod Runs
use recif.Base.{Bool, true, false, not, ◌||◌, Option, none, some, if◌then◌else◌}
use recif.Text.{Text, text_eq}
use recif.Chat.{same_cid, is_set}

-- compareA and compareB
pub record Selection : Type 0 where
  pub compare_a : Option Text
  pub compare_b : Option Text

-- toggleCompare
unfoldable pub toggle_compare : Text → Selection → Selection
toggle_compare run_id s =
    if same_cid s.compare_a (some run_id)
    then record s { compare_a = none }
    else if same_cid s.compare_b (some run_id)
    then record s { compare_b = none }
    else if not (is_set s.compare_a)
    then record s { compare_a = some run_id }
    else if not (is_set s.compare_b)
    then record s { compare_b = some run_id }
    else record { compare_a = some run_id; compare_b = none }
