-- ===== src/Teams/Expanded.antt =====
-- The team whose panel is open is one of the server.
use recif.Base.{
  ◌≡◌, ◌⊎◌, inl, inr, refl, sym, ap, ◌∙◌, Bool, true, false, none, some, List, [], ◌∷◌,
  if◌then◌else◌,
}
use recif.Text.{Text, trim}
use recif.Json.{nonempty}
use recif.Chat.{same_cid}
use recif.Teams.{
  TeamsPage, TeamServer, teams_loaded, users_loaded, lacks_user_fields, user_created, team_created,
  collapse, toggle_team, is_team, TeamAct, toggle, create_one, delete_one, enroll, name_team,
  fill_user, load_teams, load_users, handle_create_user, handle_create_team, handle_delete_team,
  team_act, team_acts,
}
use recif.Teams.Open.{other_teams, is_open_team, collapse-kept, open_team-kept, team_created-open}

-- A server keeps the other teams when one is created or removed, and all when a user is created.
pub record Keeps {S : Type 0} (server : TeamServer S) : Type 0 where
  pub on_create :
      (name desc : Text) (s s' : S) (id : Text)
      → server.new_team name desc s ≡ inr s'
      → is_team id (server.teams_of s) ≡ true
      → is_team id (server.teams_of s') ≡ true
  pub on_delete :
      (id : Text) (s s' : S)
      → server.without_team id s ≡ inr s'
      → server.teams_of s' ≡ other_teams id (server.teams_of s)
  pub on_user :
      (email name password role : Text) (s s' : S)
      → server.new_user email name password role s ≡ inr s'
      → server.teams_of s' ≡ server.teams_of s

module _ {S : Type 0} (server : TeamServer S) where
  -- The page has the teams of the server, or none, and the open panel is that of one of them.
  abbrev pub IsOpen : TeamsPage → S → Type 0
  IsOpen page s =
      ((page.teams ≡ server.teams_of s) ⊎ (page.teams ≡ []))
      × (is_open_team page.expanded_team (server.teams_of s) ≡ true)

  abbrev pub Opens : TeamsPage × S → Type 0
  Opens w = IsOpen w.0 w.1

  load_teams-IsOpen :
      (reached : Bool) (s : S) (page : TeamsPage)
      → is_open_team page.expanded_team (server.teams_of s) ≡ true
      → IsOpen (load_teams server reached s page) s
  unfolding load_teams teams_loaded
  load_teams-IsOpen true s page h = (inl refl, h)
  load_teams-IsOpen false s page h = (inr refl, h)

  if-IsOpen :
      (b : Bool) (v w : TeamsPage) (s : S)
      → (b ≡ true → IsOpen v s)
      → IsOpen w s
      → IsOpen (if b then v else w) s
  if-IsOpen true v w s h k = h refl
  if-IsOpen false v w s h k = k

  if-Opens : (b : Bool) (v w : TeamsPage × S) → Opens v → Opens w → Opens (if b then v else w)
  if-Opens true v w h k = h
  if-Opens false v w h k = k

  shown-is_team :
      (id : Text) (page : TeamsPage) (s : S)
      → IsOpen page s
      → is_team id page.teams ≡ true
      → is_team id (server.teams_of s) ≡ true
  shown-is_team id page s (inl same, _) h = sym (ap (is_team id) same) ∙ h
  shown-is_team id page s (inr empty, _) h = absurd (cc (h, ap (is_team id) empty))

  toggle_team-IsOpen :
      (id : Text) (page : TeamsPage) (s : S)
      → IsOpen page s
      → is_team id (server.teams_of s) ≡ true
      → IsOpen (toggle_team id page) s
  unfolding toggle_team
  toggle_team-IsOpen id page s (fresh, _) h =
      (fresh, either (same_cid page.expanded_team (some id)))
    where
      either : (b : Bool) → is_open_team (if b then none else some id) (server.teams_of s) ≡ true
      either true = refl
      either false = h

  load_users-IsOpen :
      (reached : Bool) (s : S) (page : TeamsPage)
      → IsOpen page s
      → IsOpen (load_users server reached s page) s
  unfolding load_users users_loaded
  load_users-IsOpen true s page h = h
  load_users-IsOpen false s page h = h

  -- Another state of the server with the same teams.
  same_teams-IsOpen :
      (page : TeamsPage) (s s' : S)
      → server.teams_of s' ≡ server.teams_of s
      → IsOpen page s
      → IsOpen page s'
  same_teams-IsOpen page s s' same (inl fresh, open_one) =
      (inl (fresh ∙ sym same), ap (is_open_team page.expanded_team) same ∙ open_one)
  same_teams-IsOpen page s s' same (inr empty, open_one) =
      (inr empty, ap (is_open_team page.expanded_team) same ∙ open_one)

  module _ (keeps : Keeps server) where
    handle_delete_team-Opens :
        (id : Text) (reached : Bool) (page : TeamsPage) (s : S)
        → IsOpen page s
        → Opens (handle_delete_team server id reached (page, s))
    unfolding handle_delete_team
    handle_delete_team-Opens id reached page s (fresh, open_one) =
        answered (server.without_team id s) refl
      where
        answered :
            (o : Text ⊎ S)
            → server.without_team id s ≡ o
            → Opens (elim o as (λ _. TeamsPage × S) [
              | inl why ↦ (page, s)
              | inr s' ↦ (load_teams server reached s' (collapse id page), s')
            ])
        answered (inl why) e = (fresh, open_one)
        answered (inr s') e = load_teams-IsOpen reached s' (collapse id page) (
            ap (is_open_team (collapse id page).expanded_team) (keeps.on_delete id s s' e)
            ∙ collapse-kept id page (server.teams_of s) open_one)

    handle_create_team-Opens :
        (reached : Bool) (page : TeamsPage) (s : S)
        → IsOpen page s
        → Opens (handle_create_team server reached (page, s))
    unfolding handle_create_team
    handle_create_team-Opens reached page s (fresh, open_one) =
        if-Opens (nonempty (trim page.new_team_name)) _ (page, s) (answered _ refl)
          (fresh, open_one)
      where
        answered :
            (o : Text ⊎ S)
            → server.new_team (trim page.new_team_name) (trim page.new_team_desc) s ≡ o
            → Opens (elim o as (λ _. TeamsPage × S) [
              | inl why ↦ (page, s)
              | inr s' ↦ (load_teams server reached s' (team_created page), s')
            ])
        answered (inl why) e = (fresh, open_one)
        answered (inr s') e = load_teams-IsOpen reached s' (team_created page) (
            team_created-open page (server.teams_of s') (
              open_team-kept page.expanded_team (server.teams_of s) (server.teams_of s')
                (λ id there.
                  keeps.on_create (trim page.new_team_name) (trim page.new_team_desc) s s' id e
                    there)
                open_one))

    handle_create_user-Opens :
        (reached : Bool) (page : TeamsPage) (s : S)
        → IsOpen page s
        → Opens (handle_create_user server reached (page, s))
    unfolding handle_create_user user_created
    handle_create_user-Opens reached page s h =
        if-Opens (lacks_user_fields page) _ _ h (answered _ refl)
      where
        answered :
            (o : Text ⊎ S)
            → server.new_user
                (trim page.new_user_email)
                (trim page.new_user_name)
                page.new_user_password
                page.new_user_role
                s
              ≡ o
            → Opens (elim o as (λ _. TeamsPage × S) [
              | inl why ↦ (record page { user_error = why }, s)
              | inr s' ↦ (
                load_users server reached s' (user_created (record page { user_error = [] })),
                s',
              )
            ])
        answered (inl why) e = h
        answered (inr s') e =
            load_users-IsOpen reached s' (user_created (record page { user_error = [] })) (
              same_teams-IsOpen (user_created (record page { user_error = [] })) s s'
                (keeps.on_user (trim page.new_user_email) (trim page.new_user_name)
                  page.new_user_password page.new_user_role s s' e)
                h)

    team_act-Opens :
        (a : TeamAct) (page : TeamsPage) (s : S)
        → IsOpen page s
        → Opens (team_act server a (page, s))
    unfolding team_act
    team_act-Opens (toggle id) page s h =
        if-IsOpen (is_team id page.teams) (toggle_team id page) page s
          (λ listed. toggle_team-IsOpen id page s h (shown-is_team id page s h listed)) h
    team_act-Opens (create_one reached) page s h = handle_create_team-Opens reached page s h
    team_act-Opens (delete_one id reached) page s h = handle_delete_team-Opens id reached page s h
    team_act-Opens (enroll reached) page s h = handle_create_user-Opens reached page s h
    team_act-Opens (name_team name desc) page s h = h
    team_act-Opens (fill_user email name password role) page s h = h

    -- Whatever teams are opened, created and removed, and users created, each request answered or
    -- refused before the next act: the panel that is open is that of a team which the server has, so
    -- that a team that was removed is never open. The server is assumed to keep the other teams.
    pub team_acts-Opens :
        (as' : List TeamAct) (w : TeamsPage × S) → Opens w → Opens (team_acts server as' w)
    unfolding team_acts
    team_acts-Opens [] w h = h
    team_acts-Opens (a ∷ as') (page, s) h =
        team_acts-Opens as' (team_act server a (page, s)) (team_act-Opens a page s h)
