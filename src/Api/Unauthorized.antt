-- ===== src/Api/Unauthorized.antt =====
-- A 401 from the API logs the user out everywhere: in the browser, which sends the token, and for
-- the server's middleware, which sees the cookie.
use recif.Base.{
  ◌≡◌, refl, ◌∙◌, ◌==◌, Bool, true, false, Option, none, some, [], ◌∷◌, ◌++◌, arith, if◌then◌else◌,
}
use recif.Text.{Text, codes, starts_with}
use recif.Json.{Json, nonempty}
use recif.Session.{
  Session, get_token, set_token, clear_token, get_auth_headers, pass, to_login, is_public,
  middleware,
}
use recif.Api.{RequestInit, Response, Endpoint, init_of, api_fetch, call}

-- The session without a token, at the login page.
abbrev pub logged_out : Session
logged_out = record { stored_token = none; cookie_token = none; location = codes "/login" }

-- Every function of the client leaves the session logged out if the answer is a 401, and leaves it
-- as it is otherwise, the request that fails included.
pub call-session :
    (words : Json → Text) (fetch : RequestInit → Option Response) (e : Endpoint) (s : Session)
    → (call words fetch e s).0 ≡ elim (fetch (init_of e s)) [
      | none ↦ s
      | some res ↦ if res.status == 401 then logged_out else s
    ]
unfolding call api_fetch clear_token
call-session words fetch e s = by_answer (fetch (init_of e s)) refl
  where
    by_answer :
        (x : Option Response)
        → fetch (init_of e s) ≡ x
        → (call words fetch e s).0 ≡ elim (fetch (init_of e s)) [
          | none ↦ s
          | some res ↦ if res.status == 401 then logged_out else s
        ]
    by_answer none h = ground (arith, h)
    by_answer (some res) h = ground (arith, h)

-- After a call that is answered with 401, no token is sent any more, the login page is shown, and
-- with authentication enabled the middleware takes every other page there, but lets that one pass.
pub call-unauthorized :
    (words : Json → Text) (fetch : RequestInit → Option Response) (e : Endpoint) (s : Session)
    (res : Response) (pathname : Text)
    → fetch (init_of e s) ≡ some res
    → res.status ≡ 401
    → is_public pathname ≡ false
    → (get_auth_headers (call words fetch e s).0 ≡ [])
      × (middleware true (call words fetch e s).0.cookie_token pathname ≡ to_login pathname)
      × (middleware true (call words fetch e s).0.cookie_token (call words fetch e s).0.location
          ≡ pass)
call-unauthorized words fetch e s res pathname answer unauthorized private =
    rw (out)
      (unfold get_auth_headers get_token middleware starts_with in (refl, rw private refl, refl))
  where
    out : (call words fetch e s).0 ≡ logged_out
    out = call-session words fetch e s ∙ ground (arith, answer, unauthorized)

-- After a login, the middleware lets every page pass, and the token is sent.
pub set_token-authorized :
    (enabled : Bool) (token pathname : Text) (s : Session)
    → nonempty token ≡ true
    → (get_auth_headers (set_token token s)
        ≡ (codes "Authorization", codes "Bearer " ++ token) ∷ [])
      × (middleware enabled (set_token token s).cookie_token pathname ≡ pass)
unfolding get_auth_headers get_token set_token middleware
set_token-authorized enabled token pathname s h = ground (arith, h)
