-- ===== src/Skills/Toggled.antt =====
-- The tools and the channels of the form of a skill are sets.
use recif.Base.{◌≡◌, not, Bool-cases, inl, inr, List, if◌then◌else◌, arith}
use recif.Text.{Text, text_eq}
use recif.Skills.{contains, toggled}
use recif.Skills.Panel.Assigned.{contains-append, contains-filter}

-- A click on a name puts it into the list if it is not there and takes it out, however often it
-- stands there, if it is; every other name stays as it is.
pub toggled-contains :
    (t k : Text) (ts : List Text)
    → contains k (toggled t ts) ≡ (if text_eq k t then not (contains t ts) else contains k ts)
unfolding toggled
toggled-contains t k ts = elim (Bool-cases (text_eq k t)) [
  | inl same ↦ elim (Bool-cases (contains t ts)) [
    | inl there ↦ rw (there, contains-filter k t ts, same) (ground arith)
    | inr new ↦ rw (new, contains-append k t ts, same) (ground arith)
  ]
  | inr other ↦ elim (Bool-cases (contains t ts)) [
    | inl there ↦ rw (there, contains-filter k t ts, other) (ground arith)
    | inr new ↦ rw (new, contains-append k t ts, other) (ground arith)
  ]
]
