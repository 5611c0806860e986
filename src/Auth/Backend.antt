-- ===== src/Auth/Backend.antt =====
-- The proxy to the back end: `proxy` of front/app/api/back/[...path]/route.ts. `auth()`, `fetch`
-- and the address of the back end are arguments.
pub mod Authorized
use mawster.Base.{
  ℕ, Text, List, [], ◌∷◌, ◌++◌, Option, none, some, Bool, true, false, not, ◌&&◌, ◌||◌, ◌==◌,
  text_eq, nat_eq, is_empty, any, codes, if◌then◌else◌,
}
use mawster.Auth.{truthy}
use mawster.Auth.Session.{Session, token_expired_error}

-- A request of the browser; its body is `none` where reading it throws.
pub record Request : Type 0 where
  pub path : List Text
  pub search : Text
  pub method : Text
  pub content_type : Option Text
  pub body : Option (List ℕ)

-- What is sent to the back end.
pub record BackendRequest : Type 0 where
  pub url : Text
  pub method : Text
  pub authorization : Option Text
  pub content_type : Option Text
  pub body : Option (List ℕ)

pub record BackendResponse : Type 0 where
  pub status : ℕ
  pub content_type : Option Text
  pub cache_control : Option Text
  pub bytes : List ℕ

pub data Response : Type 0 where
  json_message : Text → ℕ → Response
  no_content : Response
  forwarded :
      (bytes : Option (List ℕ))
      → (status : ℕ) → (content_type : Text) → (cache_control : Option Text) → Response

-- `path.join('/')`
abbrev join : List Text → Text
join [] = []
join (s ∷ []) = s
join (s ∷ t ∷ rest) = s ++ codes "/" ++ join (t ∷ rest)

abbrev pub is_public_path : Request → Bool
is_public_path req = join req.path == codes "stats/public"

abbrev is_expired_error : Option Text → Bool
is_expired_error none = false
is_expired_error (some error) = error == token_expired_error

-- `session?.accessToken`, where it is truthy.
abbrev access_token_of : Option Session → Option Text
access_token_of none = none
access_token_of (some session) = truthy session.access_token

abbrev has_expired : Option Session → Bool
has_expired none = false
has_expired (some session) = is_expired_error session.error

abbrev bearer : Option Text → Option Text
bearer none = none
bearer (some access_token) = some (codes "Bearer " ++ access_token)

abbrev non_empty : List ℕ → Option (List ℕ)
non_empty bytes = if is_empty bytes then none else some bytes

-- The body, read for a method that may have one.
abbrev request_body : Request → Option (List ℕ)
request_body req =
    if req.method == codes "GET" || req.method == codes "HEAD"
    then none
    else elim req.body [ none ↦ none | some raw ↦ non_empty raw ]

abbrev pub backend_request : Text → Option Text → Request → BackendRequest
backend_request api_url access_token req = record {
  url = api_url ++ codes "/" ++ join req.path ++ req.search;
  method = req.method;
  authorization = bearer access_token;
  content_type = truthy req.content_type;
  body = request_body req;
}

abbrev or_json : Option Text → Text
or_json none = codes "application/json"
or_json (some content_type) = content_type

-- What the browser is answered; `none` where `fetch` or reading its answer throws.
abbrev respond : Option BackendResponse → Response
respond none = json_message (codes "Internal proxy error") 502
respond (some res) =
    if res.status == 204
    then no_content
    else forwarded (non_empty res.bytes) res.status (or_json res.content_type)
        (truthy res.cache_control)

-- The request that goes to the back end, if any, and the response.
abbrev forward :
    (BackendRequest → Option BackendResponse) → BackendRequest → Option BackendRequest × Response
forward fetch sent = (some sent, respond (fetch sent))

abbrev unauthenticated : Option Session → Option BackendRequest × Response
unauthenticated session = (
  none,
  json_message (if has_expired session then codes "Session expired" else codes "Unauthenticated")
      401,
)

-- The guard and the rest, for a path that needs a session.
unfoldable pub private_proxy :
    (BackendRequest → Option BackendResponse)
    → Text
    → Option Session
    → Request
    → Option BackendRequest × Response
private_proxy fetch api_url session req = elim (access_token_of session) [
  | none ↦ unauthenticated session
  | some access_token ↦
      if has_expired session
      then unauthenticated session
      else forward fetch (backend_request api_url (some access_token) req)
]

unfoldable pub back_proxy :
    (BackendRequest → Option BackendResponse)
    → Text
    → Option Session
    → Request
    → Option BackendRequest × Response
back_proxy fetch api_url session req =
    if is_public_path req
    then forward fetch (backend_request api_url none req)
    else private_proxy fetch api_url session req
