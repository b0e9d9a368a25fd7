-- ===== src/Session.antt =====
-- Who is logged in: dashboard/src/lib/auth.ts in the browser, and dashboard/src/middleware.ts on the
-- server, which sees the cookie alone. The cookie's lifetime of a day is not modelled.
use recif.Base.{Bool, not, ◌&&◌, Option, none, some, List, [], ◌∷◌, ◌++◌, any, if◌then◌else◌}
use recif.Text.{Text, codes, starts_with}
use recif.Chat.{is_set}

-- localStorage and the cookie under TOKEN_KEY, and the page that is shown.
pub record Session : Type 0 where
  pub stored_token : Option Text
  pub cookie_token : Option Text
  pub location : Text

-- In the browser `window` is there.
unfoldable pub get_token : Session → Option Text
get_token s = s.stored_token

unfoldable pub set_token : Text → Session → Session
set_token token s = record s { stored_token = some token; cookie_token = some token }

unfoldable pub clear_token : Session → Session
clear_token s = record s { stored_token = none; cookie_token = none }

-- The headers, as pairs of a name and a value.
unfoldable pub get_auth_headers : Session → List (Text × Text)
get_auth_headers s = elim (get_token s) [
  | some token ↦
      if is_set (some token) then (codes "Authorization", codes "Bearer " ++ token) ∷ [] else []
  | none ↦ []
]

abbrev pub public_paths : List Text
public_paths = codes "/login" ∷ []

pub data Verdict : Type 0 where
  pass : Verdict
  to_login : Text → Verdict

abbrev pub is_public : Text → Bool
is_public pathname = any (λ p. starts_with p pathname) public_paths

-- middleware: `enabled` is whether NEXT_PUBLIC_AUTH_ENABLED is "true", `token` the cookie's value.
unfoldable pub middleware : Bool → Option Text → Text → Verdict
middleware enabled token pathname =
    if is_public pathname
    then pass
    else if enabled && not (is_set token)
    then to_login pathname
    else pass
