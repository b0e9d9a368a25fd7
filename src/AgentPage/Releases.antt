-- ===== src/AgentPage/Releases.antt =====
-- The tabs of the releases and of the canary on dashboard/src/app/(dashboard)/agents/[id]/page.tsx. An
-- answer of the server is the message of what is thrown, or what the call returns; a request is answered
-- before the next click.
pub mod Shown
mod Tests
use recif.Base.{
  ℕ, ◌==◌, ◌-◌, ◌⊎◌, inl, inr, Bool, true, false, Option, none, some, List, [], ◌∷◌, ◌++◌,
  if◌then◌else◌,
}
use recif.Text.{Text, codes, text_eq}
use recif.Text.Decimal.{decimal}
use recif.Json.{Json}
use recif.AgentPage.{Severity, success, error, Message}

pub record CanaryStatus : Type 0 where
  pub enabled : Bool
  pub weight : ℕ
  pub challenger_version : Text

-- A release stands for its version; a difference is passed on.
pub record ReleasesTab : Type 0 where
  pub releases : List ℕ
  pub expanded_release : Option ℕ
  pub release_artifact : Option Json
  pub release_diffs : List Json
  pub show_diff : Option (ℕ × ℕ)
  pub diff_loading : Bool
  pub deploying_version : Option ℕ
  pub canary_status : Option CanaryStatus
  pub canary_loading : Bool
  pub canary_msg : Option Message
  pub action_msg : Option Message

abbrev pub told : Text → Option Message
told t = some (record { type = success; text = t })

abbrev pub complaint : Text → Text → Option Message
complaint what why = some (record { type = error; text = what ++ why })

abbrev pub is_version : ℕ → Option ℕ → Bool
is_version v none = false
is_version v (some w) = w == v

-- The click on a release, with the answer to getRelease where it is opened.
unfoldable pub toggle_release : ℕ → Text ⊎ Json → ReleasesTab → ReleasesTab
toggle_release v answer tab =
    let shown = elim answer as (λ _. Option Json) [
      | inl why ↦ none
      | inr artifact ↦ some artifact
    ] in
    if is_version v tab.expanded_release
    then record tab { expanded_release = none; release_artifact = none }
    else record tab { expanded_release = some v; release_artifact = shown }

-- The button that compares a release with the one before, and the one that closes the comparison.
unfoldable pub diff_with_previous : ℕ → Text ⊎ List Json → ReleasesTab → ReleasesTab
diff_with_previous v answer tab = record tab {
  show_diff = some (v - 1, v);
  release_diffs = elim answer as (λ _. List Json) [ inl why ↦ [] | inr d ↦ d ];
  diff_loading = false;
}

unfoldable pub close_diff : ReleasesTab → ReleasesTab
close_diff tab = record tab { show_diff = none; release_diffs = [] }

-- The button that deploys a release: deployRelease, and fetchReleases behind it.
unfoldable pub handle_deploy_release : ℕ → Text ⊎ (Text ⊎ List ℕ) → ReleasesTab → ReleasesTab
handle_deploy_release v (inl why) tab = record tab {
  action_msg = complaint (codes "Deploy failed: ") why;
  deploying_version = none;
}
handle_deploy_release v (inr (inl why)) tab = record tab {
  action_msg = complaint (codes "Deploy failed: ") why;
  deploying_version = none;
}
handle_deploy_release v (inr (inr updated)) tab = record tab {
  releases = updated;
  action_msg = told (codes "Deployed v" ++ decimal v ++ codes " as champion.");
  deploying_version = none;
}

-- The button that starts a canary at ten percent.
unfoldable pub handle_start_canary : ℕ → Text ⊎ CanaryStatus → ReleasesTab → ReleasesTab
handle_start_canary v (inl why) tab = record tab {
  action_msg = complaint (codes "Canary failed: ") why;
  deploying_version = none;
}
handle_start_canary v (inr status) tab = record tab {
  canary_status = some status;
  action_msg =
      told
        (codes "Canary v" ++ decimal v ++ codes " started at 10%. Go to Deployment tab to manage.");
  deploying_version = none;
}

-- The slider of the canary, and the button that sends its weight.
unfoldable pub slide_weight : ℕ → ReleasesTab → ReleasesTab
slide_weight w tab = elim tab.canary_status [
  | none ↦ tab
  | some c ↦ record tab { canary_status = some (record c { weight = w }) }
]

unfoldable pub adjusted : CanaryStatus → Text ⊎ CanaryStatus → ReleasesTab → ReleasesTab
adjusted c (inl why) tab = record tab {
  canary_msg = complaint (codes "Failed: ") why;
  canary_loading = false;
}
adjusted c (inr updated) tab = record tab {
  canary_status = some updated;
  canary_msg = told (codes "Weight adjusted to " ++ decimal c.weight ++ codes "%.");
  canary_loading = false;
}

unfoldable pub adjust_weight : Text ⊎ CanaryStatus → ReleasesTab → ReleasesTab
adjust_weight answer tab = elim tab.canary_status [ none ↦ tab | some c ↦ adjusted c answer tab ]

-- The buttons that end a canary: `none` is a call that succeeds.
abbrev pub end_canary : Text → Option Text → ReleasesTab → ReleasesTab
end_canary said none tab = record tab {
  canary_status = none;
  canary_msg = told said;
  canary_loading = false;
}
end_canary said (some why) tab = record tab {
  canary_msg = complaint (codes "Failed: ") why;
  canary_loading = false;
}

unfoldable pub handle_promote : Option Text → ReleasesTab → ReleasesTab
handle_promote =
    end_canary (codes "Canary promoted to stable. All traffic now goes to the new version.")

unfoldable pub handle_rollback : Option Text → ReleasesTab → ReleasesTab
handle_rollback = end_canary (codes "Canary rolled back. All traffic restored to stable.")

-- The server, as far as the tab reads from it: the artifact of a release, and the differences between
-- two.
pub record ReleaseServer : Type 0 where
  pub artifact_of : ℕ → Text ⊎ Json
  pub diff_of : ℕ → ℕ → Text ⊎ List Json

pub data ReleaseAct : Type 0 where
  toggle compare_previous : ℕ → ReleaseAct
  close_comparison : ReleaseAct
  deploy : ℕ → Text ⊎ (Text ⊎ List ℕ) → ReleaseAct
  canary : ℕ → Text ⊎ CanaryStatus → ReleaseAct
  slide : ℕ → ReleaseAct
  adjust : Text ⊎ CanaryStatus → ReleaseAct
  promote rollback : Option Text → ReleaseAct

unfoldable pub release_act : ReleaseServer → ReleaseAct → ReleasesTab → ReleasesTab
release_act server (toggle v) tab = toggle_release v (server.artifact_of v) tab
release_act server (compare_previous v) tab = diff_with_previous v (server.diff_of (v - 1) v) tab
release_act server close_comparison tab = close_diff tab
release_act server (deploy v answer) tab = handle_deploy_release v answer tab
release_act server (canary v answer) tab = handle_start_canary v answer tab
release_act server (slide w) tab = slide_weight w tab
release_act server (adjust answer) tab = adjust_weight answer tab
release_act server (promote answer) tab = handle_promote answer tab
release_act server (rollback answer) tab = handle_rollback answer tab

unfoldable pub release_acts : ReleaseServer → List ReleaseAct → ReleasesTab → ReleasesTab
release_acts server [] tab = tab
release_acts server (a ∷ as') tab = release_acts server as' (release_act server a tab)
