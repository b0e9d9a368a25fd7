-- ===== src/Teams.antt =====
-- The page of the teams, dashboard/src/app/(dashboard)/teams/page.tsx, against a server.
pub mod Open
pub mod Expanded
pub mod Panel
mod Tests
use recif.Base.{
  ℕ, ◌⊎◌, inl, inr, Bool, true, false, not, ◌||◌, Option, none, some, List, [], ◌∷◌, any, length,
  ltb, if◌then◌else◌,
}
use recif.Text.{Text, codes, text_eq, trim}
use recif.Json.{nonempty}
use recif.Chat.{same_cid}

-- What the page uses of a team and of a user.
pub record TeamEntry : Type 0 where
  pub id : Text
  pub name : Text

pub record UserEntry : Type 0 where
  pub id : Text
  pub name : Text
  pub email : Text

-- An empty text of `user_error` stands for no error.
pub record TeamsPage : Type 0 where
  pub teams : List TeamEntry
  pub expanded_team : Option Text
  pub new_team_name : Text
  pub new_team_desc : Text
  pub loading : Bool
  pub all_users : List UserEntry
  pub new_user_email : Text
  pub new_user_name : Text
  pub new_user_password : Text
  pub new_user_role : Text
  pub user_error : Text

-- The server is a type of states with what it lists; what it is asked to change is refused with the
-- message of the error, or leads to another state.
pub record TeamServer (S : Type 0) : Type 0 where
  pub teams_of : S → List TeamEntry
  pub users_of : S → List UserEntry
  pub new_team : Text → Text → S → Text ⊎ S
  pub without_team : Text → S → Text ⊎ S
  pub new_user : Text → Text → Text → Text → S → Text ⊎ S

-- loadTeams and loadUsers from their answers on, which are none where the request throws.
unfoldable pub teams_loaded : Option (List TeamEntry) → TeamsPage → TeamsPage
teams_loaded none page = record page { teams = []; loading = false }
teams_loaded (some ts) page = record page { teams = ts; loading = false }

unfoldable pub users_loaded : Option (List UserEntry) → TeamsPage → TeamsPage
users_loaded none page = record page { all_users = [] }
users_loaded (some us) page = record page { all_users = us }

-- The guard of handleCreateUser.
unfoldable pub lacks_user_fields : TeamsPage → Bool
lacks_user_fields page =
    not (nonempty (trim page.new_user_email))
    || not (nonempty (trim page.new_user_name))
    || ltb (length page.new_user_password) 8

unfoldable pub user_created : TeamsPage → TeamsPage
user_created page = record page {
  new_user_email = [];
  new_user_name = [];
  new_user_password = [];
  new_user_role = codes "developer";
}

unfoldable pub team_created : TeamsPage → TeamsPage
team_created page = record page { new_team_name = []; new_team_desc = [] }

unfoldable pub collapse : Text → TeamsPage → TeamsPage
collapse id page =
    if same_cid page.expanded_team (some id) then record page { expanded_team = none } else page

-- The click on a team.
unfoldable pub toggle_team : Text → TeamsPage → TeamsPage
toggle_team id page = record page {
  expanded_team = if same_cid page.expanded_team (some id) then none else some id;
}

abbrev pub is_team : Text → List TeamEntry → Bool
is_team id = any (λ (t : TeamEntry). text_eq t.id id)

-- The Booleans say whether the request that reads the list again is answered.
pub data TeamAct : Type 0 where
  toggle : Text → TeamAct
  create_one : Bool → TeamAct
  delete_one : Text → Bool → TeamAct
  enroll : Bool → TeamAct
  name_team : Text → Text → TeamAct
  fill_user : Text → Text → Text → Text → TeamAct

module _ {S : Type 0} (server : TeamServer S) where
  unfoldable pub load_teams : Bool → S → TeamsPage → TeamsPage
  load_teams reached s page = teams_loaded (if reached then some (server.teams_of s) else none) page

  unfoldable pub load_users : Bool → S → TeamsPage → TeamsPage
  load_users reached s page = users_loaded (if reached then some (server.users_of s) else none) page

  unfoldable pub handle_create_user : Bool → TeamsPage × S → TeamsPage × S
  handle_create_user reached (page, s) =
      if lacks_user_fields page
      then (
        record page { user_error = codes "Email, name, and password (8+ chars) are required" },
        s,
      )
      else elim (server.new_user (trim page.new_user_email) (trim page.new_user_name)
            page.new_user_password page.new_user_role s)
          as (λ _. TeamsPage × S) [
            | inl why ↦ (record page { user_error = why }, s)
            | inr s' ↦ (load_users reached s' (user_created (record page { user_error = [] })), s')
          ]

  unfoldable pub handle_create_team : Bool → TeamsPage × S → TeamsPage × S
  handle_create_team reached (page, s) =
      if nonempty (trim page.new_team_name)
      then elim (server.new_team (trim page.new_team_name) (trim page.new_team_desc) s)
          as (λ _. TeamsPage × S) [
            | inl why ↦ (page, s)
            | inr s' ↦ (load_teams reached s' (team_created page), s')
          ]
      else (page, s)

  unfoldable pub handle_delete_team : Text → Bool → TeamsPage × S → TeamsPage × S
  handle_delete_team id reached (page, s) =
      elim (server.without_team id s) as (λ _. TeamsPage × S) [
        | inl why ↦ (page, s)
        | inr s' ↦ (load_teams reached s' (collapse id page), s')
      ]

  -- An act whose requests are answered before the next; a team is clicked where it is listed.
  unfoldable pub team_act : TeamAct → TeamsPage × S → TeamsPage × S
  team_act (toggle id) (page, s) = (if is_team id page.teams then toggle_team id page else page, s)
  team_act (create_one reached) w = handle_create_team reached w
  team_act (delete_one id reached) w = handle_delete_team id reached w
  team_act (enroll reached) w = handle_create_user reached w
  team_act (name_team name desc) (page, s) =
      (record page { new_team_name = name; new_team_desc = desc }, s)
  team_act (fill_user email name password role) (page, s) = (
    record page {
      new_user_email = email;
      new_user_name = name;
      new_user_password = password;
      new_user_role = role;
    },
    s,
  )

  unfoldable pub team_acts : List TeamAct → TeamsPage × S → TeamsPage × S
  team_acts [] w = w
  team_acts (a ∷ as') w = team_acts as' (team_act a w)
