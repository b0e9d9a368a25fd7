-- ===== src/Evaluations/Toggle.antt =====
-- The two runs that are compared are never one, and a click changes whether a run is chosen.
use recif.Base.{
  ◌≡◌, sym, ap, ◌∙◌, Bool, true, false, not, ◌||◌, ◌&&◌, Bool-cases, inl, inr, Option, none, some,
  arith,
}
use recif.Text.{Text, text_eq}
use recif.Text.Equality.{text_eq_refl, text_eq_sound}
use recif.Chat.{same_cid}
use recif.Evaluations.{Selection, toggle_compare}

abbrev pub is_chosen : Text → Selection → Bool
is_chosen run s = same_cid s.compare_a (some run) || same_cid s.compare_b (some run)

-- No run is chosen for both sides.
abbrev pub IsProper : Selection → Type 0
IsProper s =
    (run : Text) → (same_cid s.compare_a (some run) && same_cid s.compare_b (some run)) ≡ false

-- A click on a run that is not chosen chooses it, and a click on one that is chosen takes it out.
pub toggle_compare-chosen :
    (run : Text) (s : Selection)
    → IsProper s
    → is_chosen run (toggle_compare run s) ≡ not (is_chosen run s)
unfolding toggle_compare same_cid
toggle_compare-chosen run s h = ground (arith, h run, text_eq_refl run)

same_run :
    (a b : Option Text) (run : Text)
    → same_cid a (some run) ≡ true
    → same_cid b (some run) ≡ true
    → same_cid a b ≡ true
unfolding same_cid
same_run (some x) (some y) run h k = ap (text_eq x) (text_eq_sound y run k) ∙ h
same_run none b run h k = cc h
same_run (some x) none run h k = cc k

-- A click never leaves one run on both sides.
pub toggle_compare-IsProper :
    (run : Text) (s : Selection) → IsProper s → IsProper (toggle_compare run s)
unfolding toggle_compare same_cid
toggle_compare-IsProper run s h r = elim (Bool-cases (text_eq run r)) [
  | inl same ↦ rw (sym (text_eq_sound run r same)) (ground (arith, h run))
  | inr apart ↦ ground (arith, h r, apart)
]
