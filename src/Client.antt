-- ===== src/Client.antt =====
-- api/client.ts: `request`, `ApiError` and the object `api`. `fetch`, `JSON.parse` and
-- `decodeURIComponent` are arguments: the first gives none where it rejects, the others where they
-- throw. A body that `JSON.stringify` prints is kept as its value. Names of headers are in lower
-- case, as `Headers` compares them. The body of a response is taken to be readable.
pub mod Token
pub mod Laws
pub mod Tests
use vps_pilot.Base.{
  ℕ, String, Bool, true, false, not, ◌&&◌, Option, none, some, List, [], ◌∷◌, ◌==◌, eqb, leb,
  if◌then◌else◌, or_else,
}
use vps_pilot.Base.Text.{nonempty}
use vps_pilot.Base.Dict.{Dict, insert, has_key}
use vps_pilot.Base.Scan.{contains}
use vps_pilot.Compose.Port.{filled, shown}
use vps_pilot.Js.{Value, undefined, str, obj, end, null, member}
use Token.{get_csrf_token}

-- What a caller of `api.post` passes for the body.
pub data Content : Type 0 where
  form : Dict String → Content
  value : Value → Content

-- `options.body`
pub data Body : Type 0 where
  absent : Body
  form_data : Dict String → Body
  json : Value → Body

-- `RequestInit`, as far as the functions of the API set it.
pub record Options : Type 0 where
  pub verb : Option String
  pub headers : Dict String
  pub body : Body

-- The arguments of `fetch`; `credentials` is always "include".
pub record Sent : Type 0 where
  pub path : String
  pub verb : Option String
  pub headers : Dict String
  pub body : Body

pub record Response : Type 0 where
  pub status : ℕ
  pub content_type : Option String
  pub text : String

-- The promise of a request: its value, `ApiError`, or another exception.
pub data Outcome : Type 0 where
  returned : Value → Outcome
  api_error : ℕ → String → Outcome
  network_error uri_error syntax_error : Outcome

-- `options.body instanceof FormData`
abbrev pub is_form : Body → Bool
is_form (form_data fs) = true
is_form _ = false

-- The `Content-Type` that is set unless there is one or the body is a form.
unfoldable pub with_content_type : Options → Dict String
unfolding insert has_key
with_content_type o =
    if not (has_key "content-type" o.headers) && not (is_form o.body)
    then insert "content-type" "application/json" o.headers
    else o.headers

-- `options.method && options.method !== "GET"`
abbrev changes_state : Options → Bool
changes_state o = filled o.verb && not (shown o.verb == "GET")

-- `if (token) headers.set("X-CSRF-Token", token)`
unfoldable pub with_token : String → Dict String → Dict String
unfolding insert
with_token token headers = if nonempty token then insert "x-csrf-token" token headers else headers

-- The token of the cookies, which is looked for only where the method asks for it.
unfoldable pub token_for : (String → Option String) → String → Options → Option String
unfolding get_csrf_token
token_for decode cookie o =
    let token = get_csrf_token decode cookie in if changes_state o then token else some ""

unfoldable pub prepare : String → Options → String → Sent
unfolding with_content_type with_token
prepare path o token = record {
  path = path;
  verb = o.verb;
  headers = with_token token (with_content_type o);
  body = o.body;
}

-- `res.ok`
abbrev pub is_ok : Response → Bool
is_ok r = leb 200 r.status && leb r.status 299

-- `typeof json.error === "string" ? json.error : text`; a read of null throws and is caught.
abbrev pub message_of : Value → String → String
message_of (str e) text = e
message_of _ text = text

-- The `try` block: without a value the text was no JSON.
unfoldable pub read_error : Option Value → String → String
unfolding member
read_error none text = text
read_error (some v) text = message_of (member "error" v) text

unfoldable pub error_message : (String → Option Value) → String → String
unfolding read_error
error_message parse text = read_error (parse text) text

-- The cases of the response.
unfoldable pub answer : (String → Option Value) → Response → Outcome
unfolding error_message contains
answer parse r =
    if not (is_ok r)
    then api_error r.status (error_message parse r.text)
    else if eqb r.status 204
    then returned undefined
    else if contains "application/json" (or_else r.content_type "")
    then elim (parse r.text) [ none ↦ syntax_error | some v ↦ returned v ]
    else returned (str r.text)

-- What became of the call of `fetch`.
abbrev pub settle : (String → Option Value) → Option Response → Outcome
settle parse none = network_error
settle parse (some r) = answer parse r

abbrev pub after_token :
    (String → Option Value) → (Sent → Option Response) → String → Options → Option String → Outcome
after_token parse fetch path o none = uri_error
after_token parse fetch path o (some token) = settle parse (fetch (prepare path o token))

unfoldable pub request :
    (decode : String → Option String) (parse : String → Option Value)
    (fetch : Sent → Option Response) (cookie path : String)
    → Options
    → Outcome
unfolding token_for prepare answer
request decode parse fetch cookie path o =
    after_token parse fetch path o (token_for decode cookie o)

-- `JSON.stringify(body)`: undefined has no text, and a form has no properties to print.
abbrev pub stringify : Content → Body
stringify (form fs) = json (obj end)
stringify (value undefined) = absent
stringify (value v) = json v

-- The two arguments of `request`.
pub record Call : Type 0 where
  pub path : String
  pub options : Options

abbrev pub call : String → String → Body → Call
call verb path body = record {
  path = path;
  options = record { verb = some verb; headers = []; body = body };
}

-- `api.get`
unfoldable pub get : String → Call
get path = call "GET" path absent

-- `body instanceof FormData ? body : JSON.stringify(body)`
abbrev pub post_body : Content → Body
post_body (form fs) = form_data fs
post_body c = stringify c

-- `api.post`
unfoldable pub post : String → Content → Call
post path c = call "POST" path (post_body c)

-- `api.put`
unfoldable pub put : String → Content → Call
put path c = call "PUT" path (stringify c)

-- `api.patch`
unfoldable pub patch : String → Content → Call
patch path c = call "PATCH" path (stringify c)

-- `api.delete`
unfoldable pub delete : String → Call
delete path = call "DELETE" path absent
