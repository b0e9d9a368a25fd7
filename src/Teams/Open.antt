-- ===== src/Teams/Open.antt =====
-- Which team is open, and what creating and removing teams makes of it.
use recif.Base.{
  ◌≡◌, inl, inr, refl, ap, ◌∙◌, Bool, true, false, not, Bool-cases, Option, none, some, List, [],
  ◌∷◌, filter, if◌then◌else◌,
}
use recif.Text.{Text, text_eq}
use recif.Text.Equality.{text_eq_sound, text_eq_comm}
use recif.Chat.{same_cid}
use recif.Teams.{TeamEntry, TeamsPage, team_created, collapse, is_team}

abbrev pub other_teams : Text → List TeamEntry → List TeamEntry
other_teams id = filter (λ (t : TeamEntry). not (text_eq t.id id))

-- Whether the open panel is one of the teams.
abbrev pub is_open_team : Option Text → List TeamEntry → Bool
is_open_team none ts = true
is_open_team (some id) ts = is_team id ts

is_team-other :
    (id j : Text) (ts : List TeamEntry)
    → text_eq j id ≡ false
    → is_team j ts ≡ true
    → is_team j (other_teams id ts) ≡ true
is_team-other id j [] other h = h
is_team-other id j (t ∷ ts) other h = elim (Bool-cases (text_eq t.id id)) [
  | inl hit ↦
      let apart : text_eq t.id j ≡ false =
        ap (λ i. text_eq i j) (text_eq_sound t.id id hit) ∙ text_eq_comm id j ∙ other in
      rw hit (is_team-other id j ts other (rw apart at h))
  | inr missed ↦ elim (Bool-cases (text_eq t.id j)) [
    | inl found ↦ rw (missed, found) refl
    | inr later ↦ rw (missed, later) (is_team-other id j ts other (rw later at h))
  ]
]

-- What is left of the open panel when a team is removed.
collapsed : Text → Option Text → Option Text
collapsed id e = if same_cid e (some id) then none else e

collapse-expanded_team :
    (id : Text) (page : TeamsPage)
    → (collapse id page).expanded_team ≡ collapsed id page.expanded_team
unfolding collapse collapsed
collapse-expanded_team id page = elim (Bool-cases (same_cid page.expanded_team (some id))) [
  | inl same ↦ rw same refl
  | inr other ↦ rw other refl
]

collapsed-kept :
    (id : Text) (e : Option Text) (ts : List TeamEntry)
    → is_open_team e ts ≡ true
    → is_open_team (collapsed id e) (other_teams id ts) ≡ true
unfolding collapsed same_cid
collapsed-kept id none ts h = refl
collapsed-kept id (some j) ts h = elim (Bool-cases (text_eq j id)) [
  | inl same ↦ rw same refl
  | inr other ↦ rw other (is_team-other id j ts other h)
]

pub collapse-kept :
    (id : Text) (page : TeamsPage) (ts : List TeamEntry)
    → is_open_team page.expanded_team ts ≡ true
    → is_open_team (collapse id page).expanded_team (other_teams id ts) ≡ true
collapse-kept id page ts h =
    ap (λ e. is_open_team e (other_teams id ts)) (collapse-expanded_team id page)
    ∙ collapsed-kept id page.expanded_team ts h

pub open_team-kept :
    (e : Option Text) (ts us : List TeamEntry)
    → ((id : Text) → is_team id ts ≡ true → is_team id us ≡ true)
    → is_open_team e ts ≡ true
    → is_open_team e us ≡ true
open_team-kept none ts us keep h = refl
open_team-kept (some id) ts us keep h = keep id h

pub team_created-open :
    (page : TeamsPage) (ts : List TeamEntry)
    → is_open_team page.expanded_team ts ≡ true
    → is_open_team (team_created page).expanded_team ts ≡ true
unfolding team_created
team_created-open page ts h = h
