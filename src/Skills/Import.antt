-- ===== src/Skills/Import.antt =====
-- ImportTab: a skill taken from GitHub. A button is disabled while an import runs.
use recif.Base.{
  ◌≡◌, ◌⊎◌, inl, inr, refl, Bool, true, false, not, ◌&&◌, ◌||◌, Option, none, some, List, [], ◌∷◌,
  ◌++◌, if◌then◌else◌, arith,
}
use recif.Text.{Text, codes, trim}
use recif.Json.{nonempty}
use recif.Skills.{SkillsPage, begin_load_skills}

-- Empty texts of `error` and `success` stand for no message.
pub record ImportTab : Type 0 where
  pub source : Text
  pub token : Text
  pub importing : Option Text
  pub error : Text
  pub success : Text

-- `importing !== null`
abbrev pub is_importing : Option Text → Bool
is_importing none = false
is_importing (some _) = true

unfoldable pub begin_import : Text → ImportTab → ImportTab
begin_import src tab = record tab { importing = some src; error = []; success = [] }

-- From the answer on: the message of what importSkill throws, or the name of the skill, behind which
-- the page loads its skills again.
unfoldable pub end_import : Text ⊎ Text → ImportTab × SkillsPage → ImportTab × SkillsPage
end_import (inl why) (tab, page) =
    (record tab { error = codes "Failed to import: " ++ why; importing = none }, page)
end_import (inr name) (tab, page) = (
  record tab {
    success = codes "Imported \"" ++ name ++ codes "\" successfully.";
    importing = none;
  },
  begin_load_skills page,
)

pub data ImportEvent : Type 0 where
  type_source type_token : Text → ImportEvent
  import_typed : ImportEvent
  import_listed : Text → ImportEvent
  imported : Text ⊎ Text → ImportEvent

-- The token that is sent, if there is one.
unfoldable pub token_sent : ImportTab → Option Text
token_sent tab = if nonempty tab.token then some tab.token else none

unfoldable pub on_import : ImportEvent → ImportTab × SkillsPage → ImportTab × SkillsPage
on_import (type_source t) (tab, page) = (record tab { source = t }, page)
on_import (type_token t) (tab, page) = (record tab { token = t }, page)
on_import import_typed (tab, page) =
    if not (nonempty (trim tab.source)) || is_importing tab.importing
    then (tab, page)
    else (begin_import (trim tab.source) tab, page)
on_import (import_listed src) (tab, page) =
    if is_importing tab.importing then (tab, page) else (begin_import src tab, page)
on_import (imported answer) (tab, page) =
    if is_importing tab.importing then end_import answer (tab, page) else (tab, page)

unfoldable pub on_imports : List ImportEvent → ImportTab × SkillsPage → ImportTab × SkillsPage
on_imports [] w = w
on_imports (e ∷ es) w = on_imports es (on_import e w)

-- There are never two messages, and none while an import runs.
abbrev pub HasOneMessage : ImportTab → Type 0
HasOneMessage tab =
    ((nonempty tab.error && nonempty tab.success) ≡ false)
    × ((is_importing tab.importing && (nonempty tab.error || nonempty tab.success)) ≡ false)

if-HasOneMessage :
    (b : Bool) (v w : ImportTab × SkillsPage)
    → (b ≡ true → HasOneMessage v.0)
    → (b ≡ false → HasOneMessage w.0)
    → HasOneMessage (if b then v else w).0
if-HasOneMessage true v w h k = h refl
if-HasOneMessage false v w h k = k refl

end_import-HasOneMessage :
    (answer : Text ⊎ Text) (tab : ImportTab) (page : SkillsPage)
    → HasOneMessage tab
    → is_importing tab.importing ≡ true
    → HasOneMessage (end_import answer (tab, page)).0
unfolding end_import
end_import-HasOneMessage (inl why) tab page (_, quiet) running =
    (ground (arith, quiet, running), refl)
end_import-HasOneMessage (inr name) tab page (_, quiet) running =
    (ground (arith, quiet, running), refl)

begin_import-HasOneMessage : (src : Text) (tab : ImportTab) → HasOneMessage (begin_import src tab)
unfolding begin_import
begin_import-HasOneMessage src tab = (refl, refl)

on_import-HasOneMessage :
    (e : ImportEvent) (tab : ImportTab) (page : SkillsPage)
    → HasOneMessage tab
    → HasOneMessage (on_import e (tab, page)).0
unfolding on_import
on_import-HasOneMessage (type_source t) tab page h = h
on_import-HasOneMessage (type_token t) tab page h = h
on_import-HasOneMessage import_typed tab page h =
    if-HasOneMessage (not (nonempty (trim tab.source)) || is_importing tab.importing) (tab, page) _
      (λ _. h) (λ _. begin_import-HasOneMessage (trim tab.source) tab)
on_import-HasOneMessage (import_listed src) tab page h =
    if-HasOneMessage (is_importing tab.importing) (tab, page) _ (λ _. h)
      (λ _. begin_import-HasOneMessage src tab)
on_import-HasOneMessage (imported answer) tab page h =
    if-HasOneMessage (is_importing tab.importing) _ (tab, page)
      (end_import-HasOneMessage answer tab page h) (λ _. h)

-- Whatever is typed and imported, and whenever the answers come: the tab never shows an error and a
-- success at once, and neither while an import runs.
pub on_imports-HasOneMessage :
    (es : List ImportEvent) (w : ImportTab × SkillsPage)
    → HasOneMessage w.0
    → HasOneMessage (on_imports es w).0
unfolding on_imports
on_imports-HasOneMessage [] w h = h
on_imports-HasOneMessage (e ∷ es) (tab, page) h =
    on_imports-HasOneMessage es (on_import e (tab, page)) (on_import-HasOneMessage e tab page h)
