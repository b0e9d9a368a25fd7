-- ===== src/AgentPage/Releases/Tests.antt =====
-- Runs of the tab of the releases.
use recif.Base.{inl, inr, refl, true, false, none, some, List, [], ◌∷◌}
use recif.Text.{codes}
use recif.Json.{str}
use recif.AgentPage.Releases.{
  ReleasesTab, ReleaseServer, ReleaseAct, toggle, compare_previous, deploy, slide, promote,
  release_acts,
}
use recif.AgentPage.Releases.Shown.{Shows, release_acts-Shows}

-- A server that has two releases.
abbrev two_releases : ReleaseServer
two_releases = record {
  artifact_of = λ v. inr (str (codes "artifact"));
  diff_of = λ v w. inl (codes "HTTP 404");
}

abbrev fresh_tab : ReleasesTab
fresh_tab = record {
  releases = 2 ∷ 1 ∷ [];
  expanded_release = none;
  release_artifact = none;
  release_diffs = [];
  show_diff = none;
  diff_loading = false;
  deploying_version = none;
  canary_status = some (record { enabled = true; weight = 10; challenger_version = codes "2" });
  canary_loading = false;
  canary_msg = none;
  action_msg = none;
}

abbrev an_hour : List ReleaseAct
an_hour =
    toggle 2
    ∷ compare_previous 2
    ∷ slide 40
    ∷ promote none
    ∷ deploy 1 (inr (inl (codes "HTTP 500")))
    ∷ toggle 1
    ∷ []

release_acts-Shows_example : Shows two_releases (release_acts two_releases an_hour fresh_tab)
release_acts-Shows_example = release_acts-Shows two_releases an_hour fresh_tab (refl, refl)
