-- ===== src/Integrations/Draft.antt =====
-- What is sent for a new integration.
use recif.Base.{
  All, ◌≡◌, refl, ap, Bool, true, false, not, ◌&&◌, Option, none, some, List, [], ◌∷◌, ◌++◌,
  if◌then◌else◌,
}
use recif.Text.{codes, trim}
use recif.Json.{nonempty}
use recif.Maps.{map_set}
use recif.Integrations.{
  IntegrationType, IntegrationsPage, NewIntegration, select_type, creation_request, begin_creation,
  creation_failed, DialogueEvent, type_name, set_config, set_credential, create, refused, created,
  select, open_anew, close, back, is_filling, on_dialogue, on_dialogues,
}

-- The events that leave the form of a type open.
abbrev pub stays : DialogueEvent → Bool
stays e = elim e [
  | type_name t ↦ true
  | set_config k v ↦ true
  | set_credential k v ↦ true
  | create ↦ true
  | refused why ↦ true
  | _ ↦ false
]

abbrev pub fresh_draft : IntegrationType → NewIntegration
fresh_draft t = record {
  name = codes "My " ++ t.label;
  type = t.type;
  config = [];
  credentials = [];
}

abbrev pub edit : DialogueEvent → NewIntegration → NewIntegration
edit e d = elim e [
  | type_name t ↦ record d { name = t }
  | set_config k v ↦ record d { config = map_set k v d.config }
  | set_credential k v ↦ record d { credentials = map_set k v d.credentials }
  | _ ↦ d
]

unfoldable pub edits : List DialogueEvent → NewIntegration → NewIntegration
edits [] d = d
edits (e ∷ es) d = edits es (edit e d)

-- The draft on the page.
abbrev pub draft_of : IntegrationType → IntegrationsPage → NewIntegration
draft_of t page = record {
  name = page.name;
  type = t.type;
  config = page.config;
  credentials = page.credentials;
}

-- The page has the form of the type open, with the draft in it.
abbrev pub Holds : IntegrationType → NewIntegration → IntegrationsPage → Type 0
Holds t d page = (is_filling page ≡ true) × (page.selected_type ≡ some t) × (draft_of t page ≡ d)

-- A field is edited, as the form is open.
if-Holds :
    (t : IntegrationType) (d : NewIntegration) (page v : IntegrationsPage)
    → is_filling page ≡ true
    → Holds t d v
    → Holds t d (if is_filling page then v else page)
if-Holds t d page v shown h = rw shown h

begin_creation-Holds :
    (t : IntegrationType) (d : NewIntegration) (page : IntegrationsPage)
    → Holds t d page
    → Holds t d (begin_creation page)
unfolding begin_creation
begin_creation-Holds t d page h = begun (creation_request page)
  where
    begun :
        (o : Option NewIntegration)
        → Holds t d (elim o as (λ _. IntegrationsPage) [
          | none ↦ page
          | some r ↦ record page { saving = true; error = [] }
        ])
    begun none = h
    begun (some r) = h

either-Holds :
    (b : Bool) (t : IntegrationType) (d : NewIntegration) (v w : IntegrationsPage)
    → Holds t d v
    → Holds t d w
    → Holds t d (if b then v else w)
either-Holds true t d v w h k = h
either-Holds false t d v w h k = k

on_dialogue-Holds :
    (e : DialogueEvent) (t : IntegrationType) (d : NewIntegration) (page : IntegrationsPage)
    → stays e ≡ true
    → Holds t d page
    → Holds t (edit e d) (on_dialogue e page)
unfolding on_dialogue creation_failed
on_dialogue-Holds (type_name n) t d page _ (shown, chosen, same) =
    if-Holds t (record d { name = n }) page (record page { name = n }) shown
      (shown, chosen, ap (λ (x : NewIntegration). record x { name = n }) same)
on_dialogue-Holds (set_config k v) t d page _ (shown, chosen, same) =
    if-Holds t (record d { config = map_set k v d.config }) page
      (record page { config = map_set k v page.config }) shown
      (shown, chosen, ap (λ (x : NewIntegration). record x { config = map_set k v x.config }) same)
on_dialogue-Holds (set_credential k v) t d page _ (shown, chosen, same) =
    if-Holds t (record d { credentials = map_set k v d.credentials }) page
      (record page { credentials = map_set k v page.credentials }) shown
      (
        shown,
        chosen,
        ap (λ (x : NewIntegration). record x { credentials = map_set k v x.credentials }) same,
      )
on_dialogue-Holds create t d page _ h =
    either-Holds (is_filling page && not page.saving) t d _ page (begin_creation-Holds t d page h) h
on_dialogue-Holds (refused why) t d page _ h = h
on_dialogue-Holds (created answer) t d page leaves h = absurd (cc leaves)
on_dialogue-Holds (select u) t d page leaves h = absurd (cc leaves)
on_dialogue-Holds open_anew t d page leaves h = absurd (cc leaves)
on_dialogue-Holds close t d page leaves h = absurd (cc leaves)
on_dialogue-Holds back t d page leaves h = absurd (cc leaves)

on_dialogues-Holds :
    (es : List DialogueEvent) (t : IntegrationType) (d : NewIntegration) (page : IntegrationsPage)
    → All (λ e. stays e ≡ true) es
    → Holds t d page
    → Holds t (edits es d) (on_dialogues es page)
unfolding on_dialogues edits
on_dialogues-Holds [] t d page _ h = h
on_dialogues-Holds (e ∷ es) t d page (stay, all_stay) h =
    on_dialogues-Holds es t (edit e d) (on_dialogue e page) all_stay
      (on_dialogue-Holds e t d page stay h)

select_type-Holds :
    (t : IntegrationType) (page : IntegrationsPage)
    → page.show_modal ≡ true
    → Holds t (fresh_draft t) (select_type t page)
unfolding select_type
select_type-Holds t page shown = (rw shown refl, refl, refl)

creation_request-Holds :
    (t : IntegrationType) (d : NewIntegration) (page : IntegrationsPage)
    → Holds t d page
    → creation_request page ≡ (if nonempty (trim d.name) then some d else none)
unfolding creation_request
creation_request-Holds t d page (shown, chosen, same) =
    rw (creation_request, chosen)
      (ap (λ (x : NewIntegration). if nonempty (trim x.name) then some x else none) same)

-- Once a type of integration is chosen, whatever was entered before, and for another type: what is
-- sent is of that type and has the name, the settings and the credentials entered since then, under
-- the proposed name if none was typed, and nothing is sent under a blank name. Neither pressing the
-- button nor a creation that fails changes it.
pub creation_request-entered :
    (t : IntegrationType) (es : List DialogueEvent) (page : IntegrationsPage)
    → page.show_modal ≡ true
    → All (λ e. stays e ≡ true) es
    → creation_request (on_dialogues (select t ∷ es) page) ≡ (
        if nonempty (trim (edits es (fresh_draft t)).name)
        then some (edits es (fresh_draft t))
        else none)
unfolding on_dialogues on_dialogue
creation_request-entered t es page shown all_stay =
    creation_request-Holds t (edits es (fresh_draft t)) (on_dialogues es (select_type t page)) (
      on_dialogues-Holds es t (fresh_draft t) (select_type t page) all_stay
        (select_type-Holds t page shown))
