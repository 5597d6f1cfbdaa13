-- ===== src/Client/Laws.antt =====
-- What a request sends and what becomes of it.
use vps_pilot.Base.{
  String, ◌≡◌, refl, sym, ap, ◌∙◌, true, false, not, ◌&&◌, ◌==◌, Option, none, some, [], ◌∷◌, ◌++◌,
  if◌then◌else◌, arith, Bool-cases, inl, inr, ◌⊎◌,
}
use vps_pilot.Base.Text.{nonempty}
use vps_pilot.Base.Dict.{Dict, insert, has_key}
use vps_pilot.Js
use vps_pilot.Js.{Value, Fields, member, undefined, null, obj, bool, num, str, arr}
use vps_pilot.Client.{
  Content, Body, absent, Options, Sent, Response, returned, api_error, is_form, with_content_type,
  with_token, token_for, prepare, is_ok, answer, error_message, read_error, message_of, settle,
  after_token, request, Call, get, post, put, patch, delete, post_body, stringify,
}
use vps_pilot.Client.Token.{get_csrf_token}

pub data Verb : Type 0 where
  reads posts puts patches deletes : Verb

-- The function of `api` for a verb; `get` and `delete` take no body.
unfoldable pub made : Verb → String → Content → Call
unfolding get post put patch delete
made reads path c = get path
made posts path c = post path c
made puts path c = put path c
made patches path c = patch path c
made deletes path c = delete path

abbrev verb_name : Verb → String
verb_name reads = "GET"
verb_name posts = "POST"
verb_name puts = "PUT"
verb_name patches = "PATCH"
verb_name deletes = "DELETE"

abbrev sent_body : Verb → Content → Body
sent_body reads c = absent
sent_body posts c = post_body c
sent_body puts c = stringify c
sent_body patches c = stringify c
sent_body deletes c = absent

abbrev content_header : Body → Dict String
content_header b = if is_form b then [] else ("content-type", "application/json") ∷ []

abbrev token_header : Verb → String → Dict String
token_header reads token = []
token_header v token = if nonempty token then ("x-csrf-token", token) ∷ [] else []

headers-sent :
    (verb : Option String) (b : Body) (token : String)
    → with_token token (with_content_type (record { verb = verb; headers = []; body = b }))
      ≡ content_header b ++ (if nonempty token then ("x-csrf-token", token) ∷ [] else [])
unfolding with_token with_content_type insert has_key
headers-sent verb b token = elim (Bool-cases (is_form b)) [
  | inl t ↦ rw t (ground arith)
  | inr f ↦ rw f (ground arith)
]

-- The message of a body: the text of its `error`, or the whole where it is no JSON.
error_message-reads :
    (parse : String → Option Value) (text e : String)
    → (parse text ≡ none) × (e ≡ text)
      ⊎ (fs : Fields) × (parse text ≡ some (obj fs)) × (Js.get "error" fs ≡ str e)
    → error_message parse text ≡ e
unfolding error_message read_error member
error_message-reads parse text e (inl (n, same)) = ap (λ o. read_error o text) n ∙ sym same
error_message-reads parse text e (inr (fs, p, g)) =
    ap (λ o. read_error o text) p ∙ ap (λ v. message_of v text) g

module _ (decode : String → Option String) (parse : String → Option Value)
    (fetch : Sent → Option Response) (cookie path : String) where
  -- A request of a method that needs the token.
  request-writes :
      (verb : String) (b : Body) (token : String)
      → get_csrf_token decode cookie ≡ some token
      → nonempty verb && not (verb == "GET") ≡ true
      → request decode parse fetch cookie path (record { verb = some verb; headers = []; body = b })
        ≡ settle parse (
            fetch (record {
              path = path;
              verb = some verb;
              headers =
                  content_header b ++ (if nonempty token then ("x-csrf-token", token) ∷ [] else []);
              body = b;
            }))
  unfolding request token_for prepare
  request-writes verb b token h w = rw (w, h, headers-sent (some verb) b token) refl

  -- When the token of the cookies can be decoded, a request by any function of the API object is
  -- answered by what fetch gives for its method, its body, the JSON content type unless the body
  -- is a form, and the token unless it is empty or the method is GET.
  pub request-sends :
      (v : Verb) (c : Content) (token : String)
      → get_csrf_token decode cookie ≡ some token
      → request decode parse fetch cookie path (made v path c).options
        ≡ settle parse (
            fetch (record {
              path = path;
              verb = some (verb_name v);
              headers = content_header (sent_body v c) ++ token_header v token;
              body = sent_body v c;
            }))
  unfolding request token_for prepare with_content_type with_token made insert has_key get post put
      patch delete
  request-sends reads c token h = refl
  request-sends posts c token h = request-writes "POST" (post_body c) token h refl
  request-sends puts c token h = request-writes "PUT" (stringify c) token h refl
  request-sends patches c token h = request-writes "PATCH" (stringify c) token h refl
  request-sends deletes c token h = request-writes "DELETE" absent token h refl

  answer-refused :
      (r : Response)
      → is_ok r ≡ false
      → answer parse r ≡ api_error r.status (error_message parse r.text)
  unfolding answer
  answer-refused r h = rw h refl

  settle-returned :
      (o : Option Response) (v : Value)
      → settle parse o ≡ returned v
      → (r : Response) × (o ≡ some r) × (is_ok r ≡ true)
  settle-returned none v h = absurd cc
  settle-returned (some r) v h = elim (Bool-cases (is_ok r)) [
    | inl t ↦ (r, refl, t)
    | inr f ↦ let refused = answer-refused r f in absurd cc
  ]

  after_token-returned :
      (o : Options) (t : Option String) (v : Value)
      → after_token parse fetch path o t ≡ returned v
      → (s : Sent) × (r : Response) × (fetch s ≡ some r) × (s.path ≡ path) × (is_ok r ≡ true)
  unfolding prepare
  after_token-returned o none v h = absurd cc
  after_token-returned o (some token) v h =
      let (r, e, k) = settle-returned (fetch (prepare path o token)) v h in
      (prepare path o token, r, e, refl, k)

  -- A request that returns a value has asked its path and had a response of a status from 200 to
  -- 299.
  request-returned :
      (o : Options) (v : Value)
      → request decode parse fetch cookie path o ≡ returned v
      → (s : Sent) × (r : Response) × (fetch s ≡ some r) × (s.path ≡ path) × (is_ok r ≡ true)
  unfolding request
  request-returned o v h = after_token-returned o (token_for decode cookie o) v h

  -- When the token of the cookies can be decoded and every call of fetch gives the same response,
  -- whose status is not from 200 to 299, a request throws its status with the error text of its
  -- JSON body, or with the whole text where that is no JSON.
  pub request-failed :
      (v : Verb) (c : Content) (token e : String) (r : Response)
      → get_csrf_token decode cookie ≡ some token
      → ((s : Sent) → fetch s ≡ some r)
      → is_ok r ≡ false
      → (parse r.text ≡ none) × (e ≡ r.text)
        ⊎ (fs : Fields) × (parse r.text ≡ some (obj fs)) × (Js.get "error" fs ≡ str e)
      → request decode parse fetch cookie path (made v path c).options ≡ api_error r.status e
  request-failed v c token e r h reply refused body =
      request-sends v c token h
      ∙ ap (settle parse) (reply _)
      ∙ answer-refused r refused
      ∙ ap (api_error r.status) (error_message-reads parse r.text e body)
