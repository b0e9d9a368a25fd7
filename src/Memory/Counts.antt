-- ===== src/Memory/Counts.antt =====
-- The numbers above the memories.
use recif.Base.{
  ℕ, ◌+◌, ◌≡◌, refl, not, ◌&&◌, Bool, true, false, Bool-cases, inl, inr, List, [], ◌∷◌, filter,
  length, arith,
}
use recif.Text.{Text, codes, text_eq}
use recif.Text.Equality.{text_eq_sound}
use recif.Memory.{MemoryEntry, count_of, memory_stats}

abbrev is_fact : Text → Bool
is_fact c = text_eq c (codes "fact")

abbrev is_preference : Text → Bool
is_preference c = text_eq c (codes "preference")

abbrev is_instruction : Text → Bool
is_instruction c = text_eq c (codes "instruction")

abbrev is_observation : Text → Bool
is_observation c = text_eq c (codes "observation")

-- A category that is none of the four.
abbrev pub is_other : Text → Bool
is_other c =
    not (is_fact c) && not (is_preference c) && not (is_instruction c) && not (is_observation c)

abbrev one : Bool → ℕ
one true = 1
one false = 0

length-filter_cons :
    (p : Text → Bool) (m : MemoryEntry) (ms : List MemoryEntry)
    → length (filter (λ (n : MemoryEntry). p n.category) (m ∷ ms))
      ≡ one (p m.category) + length (filter (λ (n : MemoryEntry). p n.category) ms)
length-filter_cons p m ms = elim (Bool-cases (p m.category)) [
  | inl kept ↦ rw kept (omega arith)
  | inr out ↦ rw out (omega arith)
]

-- A category is exactly one of the four, or another.
one_category :
    (c : Text)
    → one (is_fact c)
        + one (is_preference c)
        + one (is_instruction c)
        + one (is_observation c)
        + one (is_other c)
      ≡ 1
unfolding text_eq
one_category c = elim (Bool-cases (is_fact c)) [
  | inl fact ↦ rw (text_eq_sound c (codes "fact") fact) refl
  | inr no_fact ↦ elim (Bool-cases (is_preference c)) [
    | inl preference ↦ rw (text_eq_sound c (codes "preference") preference) refl
    | inr no_preference ↦ elim (Bool-cases (is_instruction c)) [
      | inl instruction ↦ rw (text_eq_sound c (codes "instruction") instruction) refl
      | inr no_instruction ↦ elim (Bool-cases (is_observation c)) [
        | inl observation ↦ rw (no_fact, no_preference, no_instruction, observation) refl
        | inr other ↦ rw (no_fact, no_preference, no_instruction, other) refl
      ]
    ]
  ]
]

-- The number of memories is the sum of those of the four categories and of those of any other.
pub memory_stats-total :
    (ms : List MemoryEntry)
    → (memory_stats ms).total
      ≡ (memory_stats ms).facts
        + (memory_stats ms).preferences
        + (memory_stats ms).instructions
        + (memory_stats ms).observations
        + length (filter (λ (m : MemoryEntry). is_other m.category) ms)
unfolding memory_stats count_of
memory_stats-total [] = refl
memory_stats-total (m ∷ ms) = omega (
  arith,
  memory_stats-total ms,
  one_category m.category,
  length-filter_cons is_fact m ms,
  length-filter_cons is_preference m ms,
  length-filter_cons is_instruction m ms,
  length-filter_cons is_observation m ms,
  length-filter_cons is_other m ms,
)
