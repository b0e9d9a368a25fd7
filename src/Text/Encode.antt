-- ===== src/Text/Encode.antt =====
-- encodeURIComponent: the UTF-8 bytes of a string, those of the unreserved characters as they are
-- and the others as a percent sign and two digits. A lone surrogate throws, which is `none`.
use recif.Base.{
  ℕ, ◌+◌, ◌*◌, ◌-◌, ◌/◌, ◌%◌, ◌≡◌, ◌≢◌, Bool, true, ◌&&◌, ◌||◌, Bool-cases, inl, inr, Option, none,
  some, [], ◌∷◌, ◌++◌, All, All-append, any, ltb, leb, ◌==◌, arith, if◌then◌else◌,
}
use recif.Text.{Text, codes}

abbrev pub hex_digit : ℕ → ℕ
hex_digit d = if ltb d 10 then b'0' + d else b'A' + d - 10

unfoldable pub percent : ℕ → Text
percent b = b'%' ∷ hex_digit (b / 16) ∷ hex_digit (b % 16) ∷ []

unfoldable pub is_unreserved : ℕ → Bool
is_unreserved c =
    leb b'A' c && leb c b'Z'
    || leb b'a' c && leb c b'z'
    || leb b'0' c && leb c b'9'
    || any (λ d. c == d) (codes "-_.!~*'()")

abbrev pub is_high : ℕ → Bool
is_high c = leb 0xd800 c && leb c 0xdbff

abbrev pub is_low : ℕ → Bool
is_low c = leb 0xdc00 c && leb c 0xdfff

-- A code unit that is no surrogate.
unfoldable pub encode_unit : ℕ → Text
encode_unit c =
    if is_unreserved c
    then c ∷ []
    else if ltb c 0x80
    then percent c
    else if ltb c 0x800
    then percent (0xc0 + c / 64) ++ percent (0x80 + c % 64)
    else percent (0xe0 + c / 4096) ++ (percent (0x80 + c / 64 % 64) ++ percent (0x80 + c % 64))

-- The code point of two surrogates.
unfoldable pub encode_pair : ℕ → ℕ → Text
encode_pair high low =
    let point = 0x10000 + (high - 0xd800) * 0x400 + (low - 0xdc00) in
    percent (0xf0 + point / 262144)
    ++ (percent (0x80 + point / 4096 % 64)
        ++ (percent (0x80 + point / 64 % 64) ++ percent (0x80 + point % 64)))

abbrev pub in_front : Text → Option Text → Option Text
in_front t none = none
in_front t (some s) = some (t ++ s)

-- `pending` is a high surrogate that waits for its low one.
unfoldable pub encode_from : Option ℕ → Text → Option Text
encode_from none [] = some []
encode_from (some high) [] = none
encode_from none (c ∷ s) =
    let paired = encode_from (some c) s in
    let rest = encode_from none s in
    if is_high c then paired else if is_low c then none else in_front (encode_unit c) rest
encode_from (some high) (c ∷ s) =
    let rest = encode_from none s in if is_low c then in_front (encode_pair high c) rest else none

unfoldable pub encode_component : Text → Option Text
encode_component s = encode_from none s

-- Code units that a path keeps within a segment.
abbrev pub IsInside : ℕ → Type 0
IsInside c = (c ≢ b'/') × (c ≢ b'?')

hex_digit-IsInside : (d : ℕ) → IsInside (hex_digit d)
hex_digit-IsInside d = ground arith

percent-IsInside : (b : ℕ) → All IsInside (percent b)
unfolding percent
percent-IsInside b = (omega arith, (hex_digit-IsInside (b / 16), (hex_digit-IsInside (b % 16), tt)))

unreserved-IsInside : (c : ℕ) → is_unreserved c ≡ true → IsInside c
unfolding is_unreserved
unreserved-IsInside c h = ground (arith, h)

encode_unit-IsInside : (c : ℕ) → All IsInside (encode_unit c)
unfolding encode_unit
encode_unit-IsInside c = elim (Bool-cases (is_unreserved c)) [
  | inl plain ↦ rw plain (unreserved-IsInside c plain, tt)
  | inr coded ↦ rw coded (elim (Bool-cases (ltb c 0x80)) [
    | inl one ↦ rw one (percent-IsInside c)
    | inr more ↦ rw more (elim (Bool-cases (ltb c 0x800)) [
      | inl two ↦ rw two (All-append IsInside _ _ (percent-IsInside _) (percent-IsInside _))
      | inr three ↦ rw three (
          All-append IsInside _ _ (percent-IsInside _)
            (All-append IsInside _ _ (percent-IsInside _) (percent-IsInside _)))
    ])
  ])
]

encode_pair-IsInside : (high low : ℕ) → All IsInside (encode_pair high low)
unfolding encode_pair
encode_pair-IsInside high low = All-append IsInside _ _ (percent-IsInside _) (
    All-append IsInside _ _ (percent-IsInside _)
      (All-append IsInside _ _ (percent-IsInside _) (percent-IsInside _)))

-- What holds of a result, if there is one.
abbrev pub OfSome : {A : Type 0} → (A → Type 0) → Option A → Type 0
OfSome P none = Unit
OfSome P (some x) = P x

in_front-IsInside :
    (t : Text) (o : Option Text)
    → All IsInside t
    → OfSome (All IsInside) o
    → OfSome (All IsInside) (in_front t o)
in_front-IsInside t none _ _ = tt
in_front-IsInside t (some s) h k = All-append IsInside t s h k

encode_from-IsInside :
    (pending : Option ℕ) (s : Text) → OfSome (All IsInside) (encode_from pending s)
unfolding encode_from
encode_from-IsInside none [] = tt
encode_from-IsInside (some high) [] = tt
encode_from-IsInside none (c ∷ s) = elim (Bool-cases (is_high c)) [
  | inl high ↦ rw high (encode_from-IsInside (some c) s)
  | inr other ↦ rw other (elim (Bool-cases (is_low c)) [
    | inl low ↦ rw low tt
    | inr unit ↦
        rw unit (
          in_front-IsInside (encode_unit c) _ (encode_unit-IsInside c)
            (encode_from-IsInside none s))
  ])
]
encode_from-IsInside (some high) (c ∷ s) = elim (Bool-cases (is_low c)) [
  | inl low ↦ rw low (
      in_front-IsInside (encode_pair high c) _ (encode_pair-IsInside high c)
        (encode_from-IsInside none s))
  | inr other ↦ rw other tt
]

-- An encoded text stays within one segment of a path.
pub encode_component-IsInside : (s e : Text) → encode_component s ≡ some e → All IsInside e
unfolding encode_component
encode_component-IsInside s e h =
    coe 0 1 (i. OfSome (All IsInside) (h i)) (encode_from-IsInside none s)
