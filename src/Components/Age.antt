-- ===== src/Components/Age.antt =====
-- timeAgo of dashboard/src/components/custom/notification-bell.tsx.
use recif.Base.{
  ℕ, ◌+◌, ◌-◌, ◌*◌, ◌/◌, ◌≤◌, ◌<◌, ◌++◌, ltb, Bool-cases, inl, inr, if◌then◌else◌, arith,
}
use recif.Text.{Text, codes}
use recif.Text.Decimal.{decimal}

pub data Age : Type 0 where
  just_now : Age
  minutes hours days : ℕ → Age

-- The branches of timeAgo, on `Math.floor((Date.now() - ts) / 1000)`. A notification of the future is
-- 0 seconds old here, and less than 60 there.
unfoldable pub age_of : ℕ → Age
age_of diff =
    if ltb diff 60
    then just_now
    else if ltb diff 3600
    then minutes (diff / 60)
    else if ltb diff 86400
    then hours (diff / 3600)
    else days (diff / 86400)

-- What they return.
unfoldable pub age_text : Age → Text
age_text just_now = codes "just now"
age_text (minutes n) = decimal n ++ codes "m ago"
age_text (hours n) = decimal n ++ codes "h ago"
age_text (days n) = decimal n ++ codes "d ago"

unfoldable pub time_ago : ℕ → ℕ → Text
time_ago now ts = age_text (age_of ((now - ts) / 1000))

-- The age in seconds lies between the number of units shown and the next, and there are fewer than
-- sixty minutes, fewer than twenty-four hours, and at least one of each unit.
abbrev pub Covers : Age → ℕ → Type 0
Covers just_now diff = diff < 60
Covers (minutes n) diff = (1 ≤ n) × (n < 60) × (n * 60 ≤ diff) × (diff < (n + 1) * 60)
Covers (hours n) diff = (1 ≤ n) × (n < 24) × (n * 3600 ≤ diff) × (diff < (n + 1) * 3600)
Covers (days n) diff = (1 ≤ n) × (n * 86400 ≤ diff) × (diff < (n + 1) * 86400)

-- The age that is shown, "just now" or a number of minutes, hours or days, covers the true one: the
-- seconds lie between that number of units and the next, there is at least one unit, and there are
-- fewer than sixty minutes and fewer than twenty-four hours.
pub age_of_bounds : (now ts : ℕ) → Covers (age_of ((now - ts) / 1000)) ((now - ts) / 1000)
unfolding age_of
age_of_bounds now ts =
    let diff = (now - ts) / 1000 in
    elim (Bool-cases (ltb diff 60)) [
      | inl new ↦ rw new (ground (arith, new))
      | inr old ↦ elim (Bool-cases (ltb diff 3600)) [
        | inl m ↦ rw (old, m) (ground (arith, old, m))
        | inr older ↦ elim (Bool-cases (ltb diff 86400)) [
          | inl h ↦ rw (old, older, h) (ground (arith, older, h))
          | inr d ↦ rw (old, older, d) (ground (arith, d))
        ]
      ]
    ]
