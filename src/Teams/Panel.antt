-- ===== src/Teams/Panel.antt =====
-- TeamMembersPanel: the members of the team whose panel is open.
use recif.Base.{
  ◌≡◌, ◌⊎◌, inl, inr, refl, Bool, true, false, not, Option, none, some, List, [], ◌∷◌, any, filter,
  if◌then◌else◌,
}
use recif.Text.{Text, codes, text_eq}
use recif.Json.{nonempty}
use recif.Teams.{UserEntry}

pub record TeamMember : Type 0 where
  pub user_id : Text
  pub email : Text
  pub role : Text

-- An empty text of `error` stands for no error.
pub record MembersPanel : Type 0 where
  pub members : List TeamMember
  pub loading : Bool
  pub selected_user_id : Text
  pub new_role : Text
  pub error : Text

-- loadMembers from its answer on.
unfoldable pub members_loaded : Option (List TeamMember) → MembersPanel → MembersPanel
members_loaded none panel = record panel { members = []; loading = false }
members_loaded (some ms) panel = record panel { members = ms; loading = false }

-- `allUsers.find((u) => u.id === selectedUserId)`
unfoldable pub find_user : Text → List UserEntry → Option UserEntry
find_user id [] = none
find_user id (u ∷ us) = if text_eq u.id id then some u else find_user id us

unfoldable pub available_users : List UserEntry → MembersPanel → List UserEntry
available_users us panel =
    filter (λ (u : UserEntry). not (any (λ (m : TeamMember). text_eq m.user_id u.id) panel.members))
      us

-- What the panel asks of a server, for its team: the members, and changes that are refused with the
-- message of an error or lead to another state.
pub record MemberServer (S : Type 0) : Type 0 where
  pub members_of : S → List TeamMember
  pub with_member : Text → Text → S → Text ⊎ S
  pub without_member : Text → S → Text ⊎ S
  pub with_role : Text → Text → S → Text ⊎ S

pub data PanelAct : Type 0 where
  pick_user pick_role : Text → PanelAct
  add_picked : Bool → PanelAct
  remove_one : Text → Bool → PanelAct
  change_role : Text → Text → Bool → PanelAct

module _ {S : Type 0} (server : MemberServer S) (all_users : List UserEntry) where
  unfoldable pub load_members : Bool → S → MembersPanel → MembersPanel
  load_members reached s panel =
      members_loaded (if reached then some (server.members_of s) else none) panel

  -- A change that is refused leaves `refused`; behind one that succeeds the members are read again.
  unfoldable pub changed_members :
      Bool → Text ⊎ S → MembersPanel → (Text → MembersPanel) → S → MembersPanel × S
  changed_members reached (inl why) done refused s = (refused why, s)
  changed_members reached (inr s') done refused s = (load_members reached s' done, s')

  unfoldable pub handle_add_member : Bool → MembersPanel × S → MembersPanel × S
  handle_add_member reached (panel, s) =
      if nonempty panel.selected_user_id
      then elim (find_user panel.selected_user_id all_users) as (λ _. MembersPanel × S) [
        | none ↦ (panel, s)
        | some u ↦
            changed_members reached (server.with_member u.email panel.new_role s)
              (record panel { error = []; selected_user_id = []; new_role = codes "developer" })
              (λ why. record panel { error = why }) s
      ]
      else (panel, s)

  unfoldable pub handle_remove_member : Text → Bool → MembersPanel × S → MembersPanel × S
  handle_remove_member id reached (panel, s) =
      changed_members reached (server.without_member id s) panel (λ _. panel) s

  unfoldable pub handle_role_change : Text → Text → Bool → MembersPanel × S → MembersPanel × S
  handle_role_change id role reached (panel, s) =
      changed_members reached (server.with_role id role s) panel (λ _. panel) s

  unfoldable pub panel_act : PanelAct → MembersPanel × S → MembersPanel × S
  panel_act (pick_user id) (panel, s) = (record panel { selected_user_id = id }, s)
  panel_act (pick_role role) (panel, s) = (record panel { new_role = role }, s)
  panel_act (add_picked reached) w = handle_add_member reached w
  panel_act (remove_one id reached) w = handle_remove_member id reached w
  panel_act (change_role id role reached) w = handle_role_change id role reached w

  unfoldable pub panel_acts : List PanelAct → MembersPanel × S → MembersPanel × S
  panel_acts [] w = w
  panel_acts (a ∷ as') w = panel_acts as' (panel_act a w)

  -- The members that are shown are those of the server, or none as they could not be read.
  abbrev pub IsCurrent : MembersPanel × S → Type 0
  IsCurrent w = (w.0.members ≡ server.members_of w.1) ⊎ (w.0.members ≡ [])

  changed_members-IsCurrent :
      (reached : Bool) (o : Text ⊎ S) (done : MembersPanel) (refused : Text → MembersPanel) (s : S)
      → ((why : Text) → IsCurrent (refused why, s))
      → IsCurrent (changed_members reached o done refused s)
  unfolding changed_members load_members members_loaded
  changed_members-IsCurrent reached (inl why) done refused s h = h why
  changed_members-IsCurrent true (inr s') done refused s h = inl refl
  changed_members-IsCurrent false (inr s') done refused s h = inr refl

  handle_add_member-IsCurrent :
      (reached : Bool) (panel : MembersPanel) (s : S)
      → IsCurrent (panel, s)
      → IsCurrent (handle_add_member reached (panel, s))
  unfolding handle_add_member
  handle_add_member-IsCurrent reached panel s h =
      picked (nonempty panel.selected_user_id) (find_user panel.selected_user_id all_users)
    where
      picked :
          (b : Bool) (o : Option UserEntry)
          → IsCurrent (
              if b
              then elim o as (λ _. MembersPanel × S) [
                | none ↦ (panel, s)
                | some u ↦
                    changed_members reached
                      (server.with_member u.email panel.new_role s)
                      (record panel {
                        error = [];
                        selected_user_id = [];
                        new_role = codes "developer";
                      })
                      (λ why. record panel { error = why })
                      s
              ]
              else (panel, s))
      picked false o = h
      picked true none = h
      picked true (some u) = changed_members-IsCurrent reached _ _ _ s (λ _. h)

  panel_act-IsCurrent :
      (a : PanelAct) (panel : MembersPanel) (s : S)
      → IsCurrent (panel, s)
      → IsCurrent (panel_act a (panel, s))
  unfolding panel_act handle_remove_member handle_role_change
  panel_act-IsCurrent (pick_user id) panel s h = h
  panel_act-IsCurrent (pick_role role) panel s h = h
  panel_act-IsCurrent (add_picked reached) panel s h = handle_add_member-IsCurrent reached panel s h
  panel_act-IsCurrent (remove_one id reached) panel s h =
      changed_members-IsCurrent reached _ _ _ s (λ _. h)
  panel_act-IsCurrent (change_role id role reached) panel s h =
      changed_members-IsCurrent reached _ _ _ s (λ _. h)

  -- Whatever members are added, removed and given other roles, each request answered or refused before
  -- the next act, the panel has the members that the server has, or none if they could not be read.
  pub panel_acts-IsCurrent :
      (as' : List PanelAct) (w : MembersPanel × S) → IsCurrent w → IsCurrent (panel_acts as' w)
  unfolding panel_acts
  panel_acts-IsCurrent [] w h = h
  panel_acts-IsCurrent (a ∷ as') (panel, s) h =
      panel_acts-IsCurrent as' (panel_act a (panel, s)) (panel_act-IsCurrent a panel s h)
