-- ===== src/Wizard/Suggested.antt =====
-- The name of the repository that the input of the agent's name suggests, in
-- dashboard/src/app/(dashboard)/agents/new/page.tsx.
use recif.Base.{◌≡◌, refl, ap, ◌∙◌, true, false, List, [], ◌∷◌, if◌then◌else◌}
use recif.Text.{Text}
use recif.Json.{nonempty}
use recif.AgentPage.{dashed}
use recif.Wizard.{github, Wizard}
use recif.Wizard.Moves.{name_edit, suggested_repo, apply_edit}

-- The texts that the input has, one after the other.
abbrev pub typed_names : (Text → Text) → List Text → Wizard → Wizard
typed_names lower [] w = w
typed_names lower (n ∷ ns) w = typed_names lower ns (apply_edit lower (name_edit n) w)

abbrev pub last_name : Text → List Text → Text
last_name n [] = n
last_name n (m ∷ ns) = last_name m ns

named :
    (lower : Text → Text) (n : Text) (w : Wizard)
    → w.delivery ≡ github
    → apply_edit lower (name_edit n) w ≡ record w {
      name = n;
      repo_name = if nonempty w.repo_name then w.repo_name else dashed false (lower n);
    }
unfolding apply_edit
named lower n w h =
    ap (λ d. record w { name = n; repo_name = suggested_repo lower d n w.repo_name }) h

typed_names-kept :
    (lower : Text → Text) (ns : List Text) (w : Wizard)
    → w.delivery ≡ github
    → nonempty w.repo_name ≡ true
    → typed_names lower ns w ≡ record w { name = last_name w.name ns }
typed_names-kept lower [] w h k = refl
typed_names-kept lower (n ∷ ns) w h k =
    ap (typed_names lower ns) (
      named lower n w h
      ∙ ap
          (λ b. record w {
            name = n;
            repo_name = if b then w.repo_name else dashed false (lower n);
          })
          k)
    ∙ typed_names-kept lower ns (record w { name = n }) h k

-- Where the agent is to be delivered to GitHub and the name of the repository is empty, this becomes
-- what the first text of the input of the name gives, in lower case and with dashes for spaces, if
-- that is not empty; what the input has then changes the name of the agent alone.
pub typed_names-first :
    (lower : Text → Text) (n : Text) (ns : List Text) (w : Wizard)
    → w.delivery ≡ github
    → w.repo_name ≡ []
    → nonempty (dashed false (lower n)) ≡ true
    → typed_names lower (n ∷ ns) w
      ≡ record w { name = last_name n ns; repo_name = dashed false (lower n) }
typed_names-first lower n ns w h empty given =
    ap (typed_names lower ns) (
      named lower n w h
      ∙ ap
          (λ r. record w { name = n; repo_name = if nonempty r then r else dashed false (lower n) })
          empty)
    ∙ typed_names-kept lower ns (record w { name = n; repo_name = dashed false (lower n) }) h given
