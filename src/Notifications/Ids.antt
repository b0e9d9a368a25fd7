-- ===== src/Notifications/Ids.antt =====
-- The identifiers that push makes: the counter can be read back from them, so no two are equal.
use recif.Base.{ℕ, ◌≡◌, refl, ap, ◌∙◌, ◌≢◌, [], ◌∷◌, ◌++◌, ◌==◌, All, arith, if◌then◌else◌}
use recif.Text.{Text, codes}
use recif.Text.Decimal.{decimal-All, decimal, value_from, value-decimal}
use recif.Notifications.{make_id}

-- What stands behind the first underscore.
unfoldable pub after_underscore : Text → Text
after_underscore [] = []
after_underscore (c ∷ s) = if c == b'_' then s else after_underscore s

-- The counter of an identifier.
unfoldable pub counter_of : Text → ℕ
counter_of id = value_from 0 (after_underscore (after_underscore id))

abbrev NoUnderscore : Text → Type 0
NoUnderscore = All (λ c. c ≢ b'_')

after_underscore-append : (s t : Text) → NoUnderscore s → after_underscore (s ++ b'_' ∷ t) ≡ t
unfolding after_underscore
after_underscore-append [] t _ = refl
after_underscore-append (c ∷ s) t (h, free) = ground (arith, after_underscore-append s t free, h)

after_underscore-notif : (s : Text) → after_underscore (codes "notif_" ++ s) ≡ s
unfolding after_underscore
after_underscore-notif s = refl

pub counter_of-make_id : (now n : ℕ) → counter_of (make_id now n) ≡ n
unfolding counter_of
counter_of-make_id now n =
    ap (λ t. value_from 0 (after_underscore t))
      (after_underscore-notif (decimal now ++ b'_' ∷ decimal n))
    ∙ ap (value_from 0) (after_underscore-append (decimal now) (decimal n) free)
    ∙ value-decimal n
  where
    free : NoUnderscore (decimal now)
    free = decimal-All (λ c. c ≢ b'_') (λ d lt. omega (arith, lt)) now
