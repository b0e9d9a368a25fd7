-- ===== src/Api/Tests.antt =====
-- Runs of the client of the API.
use recif.Base.{◌≡◌, refl, true, false, Option, none, some, [], ◌∷◌, All, arith}
use recif.Text.{Text, codes, starts_with}
use recif.Json.{Json}
use recif.Session.{Session, get_auth_headers, pass, to_login, is_public, middleware}
use recif.Api.{RequestInit, Response, call}
use recif.Api.Agents.{deploy_agent}
use recif.Api.Paths.{IsSegment}
use recif.Text.Encode.{
  encode_component, encode_from, encode_unit, encode_pair, is_unreserved, percent,
}
use recif.Api.Unauthorized.{call-unauthorized}

abbrev session : Session
session = record {
  stored_token = some (codes "t");
  cookie_token = some (codes "t");
  location = codes "/agents";
}

abbrev unauthorized : RequestInit → Option Response
unauthorized _ = some (record { status = 401; body = none })

abbrev words : Json → Text
words _ = []

agents_private : is_public (codes "/agents") ≡ false
unfolding starts_with
agents_private = refl

call-unauthorized_example :
    (get_auth_headers (call words unauthorized (deploy_agent (codes "a1")) session).0 ≡ [])
    × (middleware true
          (call words unauthorized (deploy_agent (codes "a1")) session).0.cookie_token
          (codes "/agents")
        ≡ to_login (codes "/agents"))
    × (middleware true
          (call words unauthorized (deploy_agent (codes "a1")) session).0.cookie_token
          (call words unauthorized (deploy_agent (codes "a1")) session).0.location
        ≡ pass)
call-unauthorized_example =
    call-unauthorized words unauthorized (deploy_agent (codes "a1")) session
      (record { status = 401; body = none }) (codes "/agents") refl refl agents_private

segments_fine : All IsSegment (deploy_agent (codes "a1")).segments
segments_fine = ground arith

slash_encoded : encode_component (codes "a/b?") ≡ some (codes "a%2Fb%3F")
unfolding encode_component encode_from encode_unit is_unreserved percent encode_pair
slash_encoded = refl

accent_encoded :
    encode_component (0xe9 ∷ 0x20ac ∷ 0xd83d ∷ 0xde00 ∷ [])
    ≡ some (codes "%C3%A9%E2%82%AC%F0%9F%98%80")
unfolding encode_component encode_from encode_unit is_unreserved percent encode_pair
accent_encoded = refl

lone_thrown : encode_component (0xd83d ∷ b'a' ∷ []) ≡ none
unfolding encode_component encode_from encode_unit is_unreserved percent encode_pair
lone_thrown = refl

prod_encoded : encode_component (codes "prod") ≡ some (codes "prod")
unfolding encode_component encode_from encode_unit is_unreserved percent encode_pair
prod_encoded = refl
