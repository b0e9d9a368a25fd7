-- ===== src/Wizard/Scaffold/Ended.antt =====
-- How the creation of an agent ends.
use recif.Base.{◌≡◌, ◌≢◌, ◌⊎◌, refl, inl, inr, ◌++◌, false, Option, none, some}
use recif.Text.{Text, codes}
use recif.Json.{Json}
use recif.Wizard.{
  ready, custom, github, zip, AgentType, Delivery, Wizard, Reply, rejected, replied, new_id,
  handle_create_ready,
}
use recif.Wizard.Scaffold.{
  ScaffoldReply, not_sent, body, scaffold_error, handle_create_custom, handle_create,
}

-- The wizard is not locked, and says what came of it or goes to the list of agents.
abbrev pub IsEnded : Wizard → Type 0
IsEnded w = (w.creating ≡ false) × ((w.result ≢ none) ⊎ (w.location ≢ none))

handle_create_ready-IsEnded : (reply : Reply) (w : Wizard) → IsEnded (handle_create_ready reply w)
unfolding handle_create_ready
handle_create_ready-IsEnded rejected w = (refl, inl (λ e. cc e))
handle_create_ready-IsEnded (replied status none) w = (refl, inl (λ e. cc e))
handle_create_ready-IsEnded (replied status (some data')) w = ended (new_id data')
  where
    ended :
        (o : Option Json)
        → IsEnded (elim o as (λ _. Wizard) [
          | some id ↦ record w { location = some (codes "/agents"); creating = false }
          | none ↦ record w { result = some (codes "Created!"); creating = false }
        ])
    ended none = (refl, inl (λ e. cc e))
    ended (some id) = (refl, inr (λ e. cc e))

handle_create_custom-IsEnded :
    (scaffold : ScaffoldReply) (w : Wizard) → IsEnded (handle_create_custom scaffold w)
unfolding handle_create_custom
handle_create_custom-IsEnded not_sent w = (refl, inl (λ e. cc e))
handle_create_custom-IsEnded (body read) w = saved w.delivery read
  where
    saved :
        (d : Delivery) (o : Option (Json × Text))
        → IsEnded (elim d as (λ _. Wizard) [
          | zip ↦ record w { result = some (codes "Download started!"); creating = false }
          | github ↦ elim o as (λ _. Wizard) [
            | none ↦ scaffold_error w
            | some (data', url) ↦ record w {
              scaffold_result = some data';
              result = some (codes "Repository created: " ++ url);
              creating = false;
            }
          ]
        ])
    saved zip o = (refl, inl (λ e. cc e))
    saved github none = (refl, inl (λ e. cc e))
    saved github (some (data', url)) = (refl, inl (λ e. cc e))

-- However the requests of the last step end, the wizard is free again, and it shows a result or leaves
-- for the list of agents.
pub handle_create-IsEnded :
    (reply : Reply) (scaffold : ScaffoldReply) (w : Wizard)
    → IsEnded (handle_create reply scaffold w)
unfolding handle_create
handle_create-IsEnded reply scaffold w = either w.agent_type
  where
    either :
        (t : AgentType)
        → IsEnded (elim t as (λ _. Wizard) [
          | ready ↦ handle_create_ready reply w
          | custom ↦ handle_create_custom scaffold w
        ])
    either ready = handle_create_ready-IsEnded reply w
    either custom = handle_create_custom-IsEnded scaffold w
