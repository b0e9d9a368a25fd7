-- ===== src/Wizard/Scaffold.antt =====
-- handleCreateCustom and handleCreate of the wizard.
pub mod Ended
use recif.Base.{false, Option, none, some, ◌++◌}
use recif.Text.{Text, codes}
use recif.Json.{Json}
use recif.Wizard.{ready, custom, github, zip, Wizard, Reply, handle_create_ready}

-- What the POST to /api/v1/scaffold comes to: it is thrown, or a body came, whatever its status, which
-- can be read as JSON or not. Of the JSON, the address stands as the template literal shows it.
pub data ScaffoldReply : Type 0 where
  not_sent : ScaffoldReply
  body : Option (Json × Text) → ScaffoldReply

abbrev pub scaffold_failed : Text
scaffold_failed = codes "Error generating scaffold. Check that the API is running."

abbrev pub scaffold_error : Wizard → Wizard
scaffold_error w = record w { result = some scaffold_failed; creating = false }

-- handleCreateCustom: a body of any kind can be saved as an archive.
unfoldable pub handle_create_custom : ScaffoldReply → Wizard → Wizard
handle_create_custom not_sent w = scaffold_error w
handle_create_custom (body read) w = elim w.delivery [
  | zip ↦ record w { result = some (codes "Download started!"); creating = false }
  | github ↦ elim read [
    | none ↦ scaffold_error w
    | some (data', url) ↦ record w {
      scaffold_result = some data';
      result = some (codes "Repository created: " ++ url);
      creating = false;
    }
  ]
]

-- handleCreate, with the reply to the request of either branch. Its button is disabled while one runs
-- and once there is a result.
unfoldable pub handle_create : Reply → ScaffoldReply → Wizard → Wizard
handle_create reply scaffold w = elim w.agent_type [
  | ready ↦ handle_create_ready reply w
  | custom ↦ handle_create_custom scaffold w
]
