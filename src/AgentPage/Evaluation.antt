-- ===== src/AgentPage/Evaluation.antt =====
-- The tab of the evaluations on dashboard/src/app/(dashboard)/agents/[id]/page.tsx: the runs that are
-- chosen for a comparison, and the number of cases of a data set that is uploaded.
pub mod Runs
mod Tests
use recif.Base.{ℕ, Bool, true, false, Option, none, some, List, [], filter, length, if◌then◌else◌}
use recif.Text.{Text, text_eq, trim}
use recif.Json.{nonempty}
use recif.Chat.{same_cid, is_set}
use recif.AgentPage.{lines_of}

-- evalCompareA and evalCompareB
pub record Comparison : Type 0 where
  pub first : Option Text
  pub second : Option Text

-- The click on the box of a run, whose identifier is not empty.
unfoldable pub choose_run : Text → Comparison → Comparison
choose_run id c =
    if same_cid c.first (some id)
    then record { first = c.second; second = none }
    else if same_cid c.second (some id)
    then record { first = c.first; second = none }
    else if is_set c.first
    then if is_set c.second then c else record { first = c.first; second = some id }
    else record { first = some id; second = c.second }

-- The cases of a file: its lines that are not blank. Without a file there are five.
unfoldable pub case_count : Option Text → ℕ
case_count none = 5
case_count (some text) = length (filter (λ l. nonempty (trim l)) (lines_of (trim text)))
