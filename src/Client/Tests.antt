-- ===== src/Client/Tests.antt =====
-- Runs of the client at concrete inputs.
use vps_pilot.Base.{String, ◌≡◌, refl, Option, none, some, List, [], ◌∷◌, inr, All}
use vps_pilot.Base.Text.{Free-of_test}
use vps_pilot.Js.{Value, undefined, obj, str, end, field}
use vps_pilot.Js
use vps_pilot.Client.{value, Sent, Response, api_error, request, settle}
use vps_pilot.Client.Token.{get_csrf_token}
use vps_pilot.Client.Token.Cookies.{
  IsCookie, cookie_text, first_token, decoded, get_csrf_token-cookies,
}
use vps_pilot.Client.Laws.{posts, deletes, made, request-sends, request-failed}

abbrev decode : String → Option String
decode s = some s

abbrev no_json : String → Option Value
no_json s = none

abbrev an_error : String → Option Value
an_error s = some (obj (field "error" (str "no such project") end))

abbrev fine : Response
fine = record { status = 200; content_type = none; text = "ok" }

abbrev always_fine : Sent → Option Response
always_fine s = some fine

abbrev missing : Response
missing = record { status = 404; content_type = some "application/json"; text = "{}" }

abbrev two_cookies : List String
two_cookies = "theme=dark" ∷ "_gorilla_csrf=abc" ∷ []

two_cookies-AreCookies : All IsCookie two_cookies
two_cookies-AreCookies = (
  (Free-of_test b';' "theme=dark" refl, refl),
  ((Free-of_test b';' "_gorilla_csrf=abc" refl, refl), tt),
)

get_csrf_token-cookies_example :
    get_csrf_token decode (cookie_text two_cookies) ≡ decoded decode (first_token two_cookies)
get_csrf_token-cookies_example = get_csrf_token-cookies decode two_cookies two_cookies-AreCookies

token_found : get_csrf_token decode "theme=dark; _gorilla_csrf=abc" ≡ some "abc"
unfolding get_csrf_token
token_found = refl

request-sends_example :
    request decode no_json always_fine "theme=dark; _gorilla_csrf=abc" "/api/projects"
      (made posts "/api/projects" (value (str "x"))).options
    ≡ settle no_json (some fine)
request-sends_example =
    request-sends decode no_json always_fine "theme=dark; _gorilla_csrf=abc" "/api/projects" posts
      (value (str "x")) "abc" token_found

request-failed_example :
    request decode an_error
      (λ s. some missing)
      "theme=dark; _gorilla_csrf=abc"
      "/api/projects/a"
      (made deletes "/api/projects/a" (value undefined)).options
    ≡ api_error 404 "no such project"
unfolding Js.get
request-failed_example =
    request-failed decode an_error (λ s. some missing) "theme=dark; _gorilla_csrf=abc"
      "/api/projects/a" deletes (value undefined) "abc" "no such project" missing token_found
      (λ s. refl) refl (inr (field "error" (str "no such project") end, refl, refl))
