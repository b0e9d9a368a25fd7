-- ===== src/AgentPage/Evaluation/Runs.antt =====
-- The runs that are chosen for a comparison are a list of at most two.
use recif.Base.{
  ◌≡◌, refl, sym, ap, ◌∙◌, true, false, Bool-cases, inl, inr, none, some, List, [], ◌∷◌, filter,
  foldl, not, any, All, if◌then◌else◌,
}
use recif.Text.{Text, text_eq}
use recif.Text.Equality.{text_eq_sound, text_eq_comm}
use recif.Json.{nonempty}
use recif.Chat.{same_cid}
use recif.AgentPage.Evaluation.{Comparison, choose_run}

-- How the page holds a list of runs.
abbrev pub held : List Text → Comparison
held [] = record { first = none; second = none }
held (a ∷ []) = record { first = some a; second = none }
held (a ∷ b ∷ _) = record { first = some a; second = some b }

-- A run goes behind those that are chosen, if they are not two.
abbrev pub queued : Text → List Text → List Text
queued id [] = id ∷ []
queued id (a ∷ []) = a ∷ id ∷ []
queued id (a ∷ b ∷ cs) = a ∷ b ∷ cs

-- What a click on a run means: it goes out, or else behind the others.
abbrev pub clicked : List Text → Text → List Text
clicked cs id = if any (text_eq id) cs then filter (λ r. not (text_eq r id)) cs else queued id cs

-- At most two runs, two different ones, with names.
abbrev pub IsProper : List Text → Type 0
IsProper [] = Unit
IsProper (a ∷ []) = nonempty a ≡ true
IsProper (a ∷ b ∷ []) = (nonempty a ≡ true) × (nonempty b ≡ true) × (text_eq a b ≡ false)
IsProper (_ ∷ _ ∷ _ ∷ _) = ⊥

module _ (id : Text) (named : nonempty id ≡ true) where
  choose_run-one :
      (a : Text)
      → nonempty a ≡ true
      → (choose_run id (held (a ∷ [])) ≡ held (clicked (a ∷ []) id))
        × IsProper (clicked (a ∷ []) id)
  unfolding choose_run same_cid
  choose_run-one a full = elim (Bool-cases (text_eq a id)) [
    | inl same ↦ rw (text_eq_comm id a, same) (refl, tt)
    | inr other ↦ rw (text_eq_comm id a, other, full) (refl, (refl, named, other))
  ]

  choose_run-two :
      (a b : Text)
      → IsProper (a ∷ b ∷ [])
      → (choose_run id (held (a ∷ b ∷ [])) ≡ held (clicked (a ∷ b ∷ []) id))
        × IsProper (clicked (a ∷ b ∷ []) id)
  unfolding choose_run same_cid
  choose_run-two a b (full, full', apart) = elim (Bool-cases (text_eq a id)) [
    | inl same ↦
        let differs : text_eq b id ≡ false =
          ap (text_eq b) (sym (text_eq_sound a id same)) ∙ text_eq_comm b a ∙ apart in
        rw (text_eq_comm id a, text_eq_comm id b, same, differs) (refl, full')
    | inr other ↦ elim (Bool-cases (text_eq b id)) [
      | inl same ↦ rw (text_eq_comm id a, text_eq_comm id b, other, same) (refl, full)
      | inr other' ↦
          rw (text_eq_comm id a, text_eq_comm id b, other, other', full, full')
            (refl, (refl, refl, apart))
    ]
  ]

  choose_run-clicked :
      (cs : List Text)
      → IsProper cs
      → (choose_run id (held cs) ≡ held (clicked cs id)) × IsProper (clicked cs id)
  unfolding choose_run same_cid
  choose_run-clicked [] _ = (refl, named)
  choose_run-clicked (a ∷ []) p = choose_run-one a p
  choose_run-clicked (a ∷ b ∷ []) p = choose_run-two a b p
  choose_run-clicked (_ ∷ _ ∷ _ ∷ _) p = absurd p

-- Whatever runs are clicked, the page holds a list of at most two different ones: a click on a run
-- that is chosen takes it out, so that the second becomes the first, a click on another puts it
-- behind, and one on a third run does nothing.
pub choose_runs-held :
    (ids cs : List Text)
    → All (λ id. nonempty id ≡ true) ids
    → IsProper cs
    → (foldl (λ c id. choose_run id c) (held cs) ids ≡ held (foldl clicked cs ids))
      × IsProper (foldl clicked cs ids)
choose_runs-held [] cs _ p = (refl, p)
choose_runs-held (id ∷ ids) cs (named, rest) p =
    let (same, q) = choose_run-clicked id named cs p in
    let (all, r) = choose_runs-held ids (clicked cs id) rest q in
    (ap (λ c. foldl (λ d i. choose_run i d) c ids) same ∙ all, r)
