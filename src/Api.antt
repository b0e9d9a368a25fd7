-- ===== src/Api.antt =====
-- The client of the HTTP API, dashboard/src/lib/api.ts: apiFetch, and the one shape that all its
-- functions have. Each function is an endpoint of the child modules, and `call` runs it.
pub mod Agents
pub mod Catalog
pub mod Evaluations
pub mod Platform
pub mod Prompts
pub mod Teams
pub mod Paths
pub mod Unauthorized
mod Tests
use recif.Base.{ℕ, Bool, true, false, ◌==◌, Option, none, some, List, [], ◌∷◌, ◌++◌, if◌then◌else◌}
use recif.Text.{Text, codes}
use recif.Text.Decimal.{decimal}
use recif.Json.{Json, null, str, arr, nil, obj, Fields, end, field, nonempty, get, truthy}
use recif.Session.{Session, get_auth_headers, clear_token}
use recif.Chat.Send.{is_ok}

pub data Method : Type 0 where
  get_method post_method put_method patch_method delete_method : Method

-- What fetch is called with, the URL without API_URL.
pub record RequestInit : Type 0 where
  pub method : Method
  pub path : Text
  pub headers : List (Text × Text)
  pub body : Option Json

-- A response: its status, and what `json()` gives, `none` where it rejects.
pub record Response : Type 0 where
  pub status : ℕ
  pub body : Option Json

pub data Thrown : Type 0 where
  network : Thrown
  no_json : Thrown
  no_object : Thrown
  message : Text → Thrown

pub data Result (A : Type 0) : Type 0 where
  returned : A → Result A
  thrown : Thrown → Result A

-- What a function does where `res.ok` is false: it throws its text with the status behind it, a text
-- alone, the server's own words or else a text, or it returns an empty list.
pub data Refusal : Type 0 where
  with_status : Text → Refusal
  plain_words : Text → Refusal
  server_words : Text → Refusal
  server_words_or_status : Text → Refusal
  no_items : Refusal

-- What it returns otherwise: nothing, the whole body, a field of it, or a field that is a list and
-- defaults to an empty one.
pub data Shape : Type 0 where
  nothing : Shape
  whole : Shape
  item : Text → Shape
  items : Text → Shape

-- One function of the client, at its arguments. The path is `/api/v1` and the segments, then the
-- query with its question mark.
pub record Endpoint : Type 0 where
  pub method : Method
  pub segments : List Text
  pub query : Text
  pub body : Option Json
  pub refusal : Refusal
  pub shape : Shape

abbrev pub slashed : List Text → Text
slashed [] = []
slashed (s ∷ ss) = b'/' ∷ (s ++ slashed ss)

-- What apiFetch is called with, and puts behind API_URL: the template literal of the path, whose
-- parts between two slashes are the segments.
unfoldable pub endpoint_path : Endpoint → Text
endpoint_path e = codes "/api/v1" ++ (slashed e.segments ++ e.query)

-- An object literal.
abbrev pub fields_of : List (Text × Json) → Fields
fields_of [] = end
fields_of ((k, v) ∷ fs) = field k v (fields_of fs)

abbrev pub object : List (Text × Json) → Option Json
object fs = some (obj (fields_of fs))

-- `t || ""`
abbrev pub or_empty : Option Text → Text
or_empty none = []
or_empty (some t) = t

-- A field that is truthy, or a default.
unfoldable pub field_or : Text → Json → Json → Json
field_or k v j = elim (get k j) [ some w ↦ if truthy (some w) then w else v | none ↦ v ]

-- The headers of a call: the token's, and that of a body.
unfoldable pub headers_of : Option Json → Session → List (Text × Text)
headers_of none s = get_auth_headers s
headers_of (some _) s = get_auth_headers s ++ (codes "Content-Type", codes "application/json") ∷ []

unfoldable pub init_of : Endpoint → Session → RequestInit
init_of e s = record {
  method = e.method;
  path = endpoint_path e;
  headers = headers_of e.body s;
  body = e.body;
}

-- apiFetch; `fetch` is none where it rejects.
unfoldable pub api_fetch :
    (RequestInit → Option Response) → RequestInit → Session → Session × Option Response
api_fetch fetch r s = elim (fetch r) [
  | none ↦ (s, none)
  | some res ↦
      if res.status == 401
      then (record (clear_token s) { location = codes "/login" }, some res)
      else (s, some res)
]

-- `words` is `String(v)`, which `new Error(v)` takes of a value.
module _ (words : Json → Text) where
  -- `err.detail || err.error || fallback` on the body, or on `{}` if there is none.
  -- A field of null is a TypeError.
  unfoldable pub error_words : Text → Option Json → Thrown
  error_words fallback none = message fallback
  error_words fallback (some null) = no_object
  error_words fallback (some err) =
      message (words (field_or (codes "detail") (field_or (codes "error") (str fallback) err) err))

  unfoldable pub refuse : Refusal → Response → Result (Option Json)
  refuse (with_status text) res = thrown (message (text ++ (codes ": " ++ decimal res.status)))
  refuse (plain_words text) res = thrown (message text)
  refuse (server_words text) res = thrown (error_words text res.body)
  refuse (server_words_or_status text) res =
      thrown (error_words (text ++ (codes ": " ++ decimal res.status)) res.body)
  refuse no_items res = returned (some (arr nil))

  unfoldable pub deliver : Shape → Option Json → Result (Option Json)
  deliver nothing body = returned none
  deliver _ none = thrown no_json
  deliver whole (some json) = returned (some json)
  deliver (item k) (some null) = thrown no_object
  deliver (items k) (some null) = thrown no_object
  deliver (item k) (some json) = returned (get k json)
  deliver (items k) (some json) = returned (some (field_or k (arr nil) json))

  -- A function of the client from its call of apiFetch on.
  unfoldable pub respond : Endpoint → Option Response → Result (Option Json)
  respond e none = thrown network
  respond e (some res) = if is_ok res.status then deliver e.shape res.body else refuse e.refusal res

  unfoldable pub call :
      (RequestInit → Option Response) → Endpoint → Session → Session × Result (Option Json)
  call fetch e s = let (s', res) = api_fetch fetch (init_of e s) s in (s', respond e res)

  -- login and register call fetch itself: no token is sent, and a 401 leaves the session.
  unfoldable pub call_plain : (RequestInit → Option Response) → Endpoint → Result (Option Json)
  call_plain fetch e =
      let bare_request : RequestInit = record {
        method = e.method;
        path = endpoint_path e;
        headers = (codes "Content-Type", codes "application/json") ∷ [];
        body = e.body;
      } in
      respond e (fetch bare_request)
