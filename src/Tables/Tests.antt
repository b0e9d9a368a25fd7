-- ===== src/Tables/Tests.antt =====
-- Runs of a small table.
use recif.Base.{List, [], ◌∷◌}
use recif.Text.{codes}
use recif.Json.{Json, null, str, Fields, end, field}
use recif.Tables.{Ordered, equal}

abbrev all_equal : Json → Json → Ordered
all_equal _ _ = equal

abbrev row : Json → Fields
row v = field (codes "n") v end

abbrev three_rows : List Fields
three_rows = row (str (codes "b")) ∷ row null ∷ row (str (codes "a")) ∷ []
