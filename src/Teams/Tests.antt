-- ===== src/Teams/Tests.antt =====
-- Runs of the page of the teams.
use recif.Base.{◌≡◌, inl, inr, refl, true, false, none, List, [], ◌∷◌, arith}
use recif.Text.{Text, codes}
use recif.Teams.{
  TeamEntry, TeamsPage, TeamServer, is_team, TeamAct, toggle, create_one, delete_one, name_team,
  team_acts,
}
use recif.Teams.Open.{other_teams}
use recif.Teams.Expanded.{Keeps, Opens, team_acts-Opens}

abbrev team : Text → TeamEntry
team name = record { id = name; name = name }

-- A server whose state is the list of its teams.
abbrev team_list : TeamServer (List TeamEntry)
team_list = record {
  teams_of = λ ts. ts;
  users_of = λ ts. [];
  new_team = λ name desc ts. inr (team name ∷ ts);
  without_team = λ id ts. inr (other_teams id ts);
  new_user = λ email name password role ts. inr ts;
}

new_team-kept :
    (name : Text) (s s' : List TeamEntry) (id : Text)
    → s' ≡ team name ∷ s
    → is_team id s ≡ true
    → is_team id s' ≡ true
new_team-kept name s s' id e h = rw e (ground (arith, h))

team_list-Keeps : Keeps team_list
team_list-Keeps = record {
  on_create = λ name desc s s' id e h. new_team-kept name s s' id (cc e) h;
  on_delete = λ id s s' e. cc e;
  on_user = λ email name password role s s' e. cc e;
}

abbrev closed_page : TeamsPage
closed_page = record {
  teams = team (codes "core") ∷ [];
  expanded_team = none;
  new_team_name = [];
  new_team_desc = [];
  loading = false;
  all_users = [];
  new_user_email = [];
  new_user_name = [];
  new_user_password = [];
  new_user_role = codes "developer";
  user_error = [];
}

abbrev a_morning : List TeamAct
a_morning =
    toggle (codes "core")
    ∷ name_team (codes "data") []
    ∷ create_one true
    ∷ delete_one (codes "core") false
    ∷ []

team_acts-Opens_example :
    Opens team_list (team_acts team_list a_morning (closed_page, team (codes "core") ∷ []))
team_acts-Opens_example =
    team_acts-Opens team_list team_list-Keeps a_morning (closed_page, team (codes "core") ∷ [])
      (inl refl, refl)
