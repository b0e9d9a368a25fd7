-- ===== src/Text/Equality.antt =====
-- `s === t` decides whether two strings are the same.
use recif.Base.{◌≡◌, refl, ap₂, true, [], ◌∷◌, arith}
use recif.Text.{Text, text_eq}

pub text_eq_refl : (t : Text) → text_eq t t ≡ true
unfolding text_eq
text_eq_refl [] = refl
text_eq_refl (c ∷ t) = ground (arith, text_eq_refl t)

pub text_eq_sound : (s t : Text) → text_eq s t ≡ true → s ≡ t
unfolding text_eq
text_eq_sound [] [] h = refl
text_eq_sound [] (d ∷ t) h = cc h
text_eq_sound (c ∷ s) [] h = cc h
text_eq_sound (c ∷ s) (d ∷ t) h =
    ap₂ (λ x xs. x ∷ xs) (ground (arith, h)) (text_eq_sound s t (ground (arith, h)))

pub text_eq_comm : (s t : Text) → text_eq s t ≡ text_eq t s
unfolding text_eq
text_eq_comm [] [] = refl
text_eq_comm [] (d ∷ t) = refl
text_eq_comm (c ∷ s) [] = refl
text_eq_comm (c ∷ s) (d ∷ t) = ground (arith, text_eq_comm s t)
