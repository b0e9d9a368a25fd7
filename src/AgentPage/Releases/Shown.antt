-- ===== src/AgentPage/Releases/Shown.antt =====
-- The artifact and the differences that are shown are those of the releases that are open.
use recif.Base.{
  ℕ, ◌⊎◌, inl, inr, ◌≡◌, refl, Bool, true, false, Option, none, some, List, [], ◌∷◌, if◌then◌else◌,
}
use recif.Text.{Text}
use recif.Json.{Json}
use recif.AgentPage.Releases.{
  CanaryStatus, ReleasesTab, is_version, toggle_release, diff_with_previous, close_diff,
  handle_deploy_release, handle_start_canary, slide_weight, adjusted, adjust_weight, handle_promote,
  handle_rollback, ReleaseServer, ReleaseAct, toggle, compare_previous, close_comparison, deploy,
  canary, slide, adjust, promote, rollback, release_act, release_acts,
}

abbrev pub artifact : Text ⊎ Json → Option Json
artifact (inl why) = none
artifact (inr a) = some a

abbrev pub differences : Text ⊎ List Json → List Json
differences (inl why) = []
differences (inr d) = d

-- What belongs to the release that is open, and to the comparison.
abbrev pub artifact_shown : ReleaseServer → Option ℕ → Option Json
artifact_shown server none = none
artifact_shown server (some v) = artifact (server.artifact_of v)

abbrev pub differences_shown : ReleaseServer → Option (ℕ × ℕ) → List Json
differences_shown server none = []
differences_shown server (some (v, w)) = differences (server.diff_of v w)

abbrev pub Shows : ReleaseServer → ReleasesTab → Type 0
Shows server tab =
    (tab.release_artifact ≡ artifact_shown server tab.expanded_release)
    × (tab.release_diffs ≡ differences_shown server tab.show_diff)

module _ (server : ReleaseServer) where
  toggle_release-Shows :
      (v : ℕ) (tab : ReleasesTab)
      → Shows server tab
      → Shows server (toggle_release v (server.artifact_of v) tab)
  unfolding toggle_release
  toggle_release-Shows v tab (_, compared) =
      expanded_or_not (is_version v tab.expanded_release) (server.artifact_of v) refl
    where
      expanded_or_not :
          (b : Bool) (answer : Text ⊎ Json)
          → server.artifact_of v ≡ answer
          → Shows server (
              if b
              then record tab { expanded_release = none; release_artifact = none }
              else record tab {
                expanded_release = some v;
                release_artifact = elim answer as (λ _. Option Json) [
                  | inl why ↦ none
                  | inr a ↦ some a
                ];
              })
      expanded_or_not true answer e = (refl, compared)
      expanded_or_not false (inl why) e = (rw e refl, compared)
      expanded_or_not false (inr a) e = (rw e refl, compared)

  release_act-Shows :
      (a : ReleaseAct) (tab : ReleasesTab)
      → Shows server tab
      → Shows server (release_act server a tab)
  unfolding release_act diff_with_previous close_diff handle_deploy_release handle_start_canary
      slide_weight adjust_weight adjusted handle_promote handle_rollback
  release_act-Shows (toggle v) tab h = toggle_release-Shows v tab h
  release_act-Shows (compare_previous v) tab (opened, _) = (opened, refl)
  release_act-Shows close_comparison tab (opened, _) = (opened, refl)
  release_act-Shows (deploy v (inl why)) tab h = h
  release_act-Shows (deploy v (inr (inl why))) tab h = h
  release_act-Shows (deploy v (inr (inr updated))) tab h = h
  release_act-Shows (canary v (inl why)) tab h = h
  release_act-Shows (canary v (inr status)) tab h = h
  release_act-Shows (slide w) tab h = slid tab.canary_status
    where
      slid :
          (o : Option CanaryStatus)
          → Shows server (elim o as (λ _. ReleasesTab) [
            | none ↦ tab
            | some c ↦ record tab { canary_status = some (record c { weight = w }) }
          ])
      slid none = h
      slid (some c) = h
  release_act-Shows (adjust answer) tab h = weighed tab.canary_status answer
    where
      weighed :
          (o : Option CanaryStatus) (answer : Text ⊎ CanaryStatus)
          → Shows server
              (elim o as (λ _. ReleasesTab) [ none ↦ tab | some c ↦ adjusted c answer tab ])
      weighed none answer = h
      weighed (some c) (inl why) = h
      weighed (some c) (inr updated) = h
  release_act-Shows (promote none) tab h = h
  release_act-Shows (promote (some why)) tab h = h
  release_act-Shows (rollback none) tab h = h
  release_act-Shows (rollback (some why)) tab h = h

  -- Whatever releases are opened, compared and deployed and canaries run, each request answered before
  -- the next click: the artifact that is shown is that of the release that is open, and the differences
  -- are those between the two releases that are compared, or nothing if the server failed.
  pub release_acts-Shows :
      (as' : List ReleaseAct) (tab : ReleasesTab)
      → Shows server tab
      → Shows server (release_acts server as' tab)
  unfolding release_acts
  release_acts-Shows [] tab h = h
  release_acts-Shows (a ∷ as') tab h =
      release_acts-Shows as' (release_act server a tab) (release_act-Shows a tab h)
