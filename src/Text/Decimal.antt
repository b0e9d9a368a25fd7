-- ===== src/Text/Decimal.antt =====
-- `String(n)` of a natural number: its decimal digits. The fuel is one more than the number, and a
-- number has fewer digits than that.
use recif.Base.{
  All, ℕ, zero, suc, ◌+◌, ◌*◌, ◌/◌, ◌%◌, ◌-◌, ◌<◌, ◌≡◌, refl, ap, ◌∙◌, Bool-cases, inl, inr, [],
  ◌∷◌, arith, ltb, if◌then◌else◌,
}
use recif.Text.{Text}

-- The digits of `n` in front of `acc`.
unfoldable pub decimal_from : ℕ → ℕ → Text → Text
decimal_from zero n acc = acc
decimal_from (suc fuel) n acc =
    let digit = b'0' + n % 10 in
    let rest = decimal_from fuel (n / 10) (digit ∷ acc) in if ltb n 10 then digit ∷ acc else rest

unfoldable pub decimal : ℕ → Text
decimal n = decimal_from (suc n) n []

-- The number that digits stand for, behind the number `acc`.
unfoldable pub value_from : ℕ → Text → ℕ
value_from acc [] = acc
value_from acc (d ∷ ds) = value_from (acc * 10 + (d - b'0')) ds

value_from-decimal_from :
    (fuel n : ℕ) (acc : Text) → n < fuel → value_from 0 (decimal_from fuel n acc) ≡ value_from n acc
unfolding decimal_from value_from
value_from-decimal_from zero n acc h = absurd (omega arith)
value_from-decimal_from (suc fuel) n acc h = elim (Bool-cases (ltb n 10)) [
  | inl small ↦ rw small (ap (λ k. value_from k acc) (ground arith))
  | inr large ↦ rw large (
      value_from-decimal_from fuel (n / 10) ((b'0' + n % 10) ∷ acc) (ground arith)
      ∙ ap (λ k. value_from k acc) (omega arith))
]

-- Reading the printed number back gives the number: the fuel is enough.
pub value-decimal : (n : ℕ) → value_from 0 (decimal n) ≡ n
unfolding decimal
value-decimal n = value_from-decimal_from (suc n) n [] (omega arith) ∙ unfold value_from in refl

-- What holds of the ten digits holds of all that is printed.
decimal_from-All :
    (P : ℕ → Type 0)
    → ((d : ℕ) → d < 10 → P (b'0' + d))
    → (fuel n : ℕ) (acc : Text) → All P acc
    → All P (decimal_from fuel n acc)
unfolding decimal_from
decimal_from-All P digit zero n acc h = h
decimal_from-All P digit (suc fuel) n acc h = elim (Bool-cases (ltb n 10)) [
  | inl small ↦ rw small (digit (n % 10) (omega arith), h)
  | inr large ↦ rw large (
      decimal_from-All P digit fuel (n / 10) ((b'0' + n % 10) ∷ acc)
        (digit (n % 10) (omega arith), h))
]

pub decimal-All : (P : ℕ → Type 0) → ((d : ℕ) → d < 10 → P (b'0' + d)) → (n : ℕ) → All P (decimal n)
unfolding decimal
decimal-All P digit n = decimal_from-All P digit (suc n) n [] tt
