-- ===== src/Proxy.antt =====
-- The proxy to the backend: frontend/src/app/api/backend/[...path]/route.ts. The environment, the
-- network, `btoa` and the test of the backend's address are arguments, and the query comes parsed. A
-- call of `fetch` without validators gives no 304. The credentials are of characters that `btoa` takes.
pub mod Guards
mod Tests
use royale_ai_platform.Prelude.{
  ℕ, Bool, true, false, Option, none, some, ◌⊎◌, inl, inr, List, [], ◌∷◌, ◌++◌, ◌&&◌, ◌||◌, leb,
  if◌then◌else◌, is_empty, filter, any, take,
}
use royale_ai_platform.Text.{Text, text, text_eq, show}

-- `process.env`
pub record Environment : Type 0 where
  pub bling_admin_username : Option Text
  pub admin_username : Option Text
  pub bling_admin_password : Option Text
  pub admin_password : Option Text
  pub backend_url : Option Text
  pub development : Bool

-- What is sent to the backend: the address, the path, the query and the header.
pub record BackendRequest : Type 0 where
  pub base : Text
  pub path : Text
  pub query : List (Text × Text)
  pub authorization : Text

-- What `fetch` comes to: it throws with a message, or there is a response with its status, the text
-- of its body, and what `json()` comes to: a message it throws, or a value.
pub data Fetched (J : Type 0) : Type 0 where
  failed : Text → Fetched J
  response : ℕ → Text → Text ⊎ J → Fetched J

pub data Body (J : Type 0) : Type 0 where
  error_body : Text → Body J
  data_body : J → Body J

pub record LogEntry : Type 0 where
  pub path : Text
  pub status : ℕ
  pub detail : Text

-- What a call of `GET` does: what it sends, what it answers and what it logs.
pub record Handled (J : Type 0) : Type 0 where
  pub sent : Option BackendRequest
  pub status : ℕ
  pub body : Body J
  pub logged : List LogEntry

pub record Platform (J : Type 0) : Type 0 where
  pub btoa : Text → Text
  -- `new URL(…, backend)` does not throw.
  pub is_url : Text → Bool
  pub fetch : BackendRequest → Fetched J

abbrev pub contains : List Text → Text → Bool
contains texts t = any (λ s. text_eq s t) texts

-- `ALLOWED_GET_PATHS`
abbrev pub allowed_get_paths : List Text
allowed_get_paths =
    text "analytics/dashboard"
    ∷ text "analytics/products"
    ∷ text "analytics/marketplace-revenue"
    ∷ text "orders"
    ∷ text "products"
    ∷ text "sales-channels"
    ∷ []

-- `ALLOWED_QUERY_PARAMS[path] ?? new Set()`
unfoldable pub allowed_query_params : Text → List Text
allowed_query_params path =
    if text_eq path (text "analytics/dashboard")
    then text "days" ∷ text "period" ∷ []
    else (if text_eq path (text "analytics/products")
        then text "period" ∷ []
        else (if text_eq path (text "analytics/marketplace-revenue")
            then text "period" ∷ []
            else (if text_eq path (text "orders") then text "status" ∷ text "period" ∷ [] else [])))

-- `a ?? b ?? ""`
abbrev pub first_of : Option Text → Option Text → Text
first_of (some a) b = a
first_of none (some b) = b
first_of none none = []

-- `params.path.join("/")`
unfoldable pub join : List Text → Text
join [] = []
join (part ∷ []) = part
join (part ∷ next ∷ parts) = part ++ text "/" ++ join (next ∷ parts)

abbrev pub backend_of : Environment → Text
backend_of env = elim env.backend_url [ none ↦ text "http://localhost:8000" | some b ↦ b ]

-- `logProxyFailure`
unfoldable pub log_proxy_failure : Environment → Text → ℕ → Text → List LogEntry
log_proxy_failure env path status detail =
    if env.development
    then record { path = path; status = status; detail = take 500 detail } ∷ []
    else []

abbrev pub is_ok : ℕ → Bool
is_ok status = leb 200 status && leb status 299

module _ {J : Type 0} (platform : Platform J) (env : Environment) where
  open platform use {btoa, is_url, fetch}

  abbrev pub basic : Text → Text → Option Text
  basic user password =
      if is_empty user || is_empty password
      then none
      else some (text "Basic " ++ btoa (user ++ text ":" ++ password))

  -- `serverAuth()`
  unfoldable pub server_auth : Option Text
  server_auth =
      basic (first_of env.bling_admin_username env.admin_username)
        (first_of env.bling_admin_password env.admin_password)

  -- The request with the address of `backendUrl`.
  unfoldable pub backend_request : Text → List (Text × Text) → Text → BackendRequest
  backend_request path query auth = record {
    base = backend_of env;
    path = path;
    query = filter (λ entry. contains (allowed_query_params path) entry.0) query;
    authorization = auth;
  }

  abbrev pub unreachable : Option BackendRequest → Text → Text → Handled J
  unreachable sent path message = record {
    sent = sent;
    status = 502;
    body = error_body (text "Failed to reach backend");
    logged = log_proxy_failure env path 502 message;
  }

  abbrev pub answer_json : BackendRequest → Text → Text ⊎ J → Handled J
  answer_json sent path (inl message) = unreachable (some sent) path message
  answer_json sent path (inr j) = record {
    sent = some sent;
    status = 200;
    body = data_body j;
    logged = [];
  }

  abbrev pub answer : BackendRequest → Text → Fetched J → Handled J
  answer sent path (failed message) = unreachable (some sent) path message
  answer sent path (response status detail json) =
      if is_ok status then answer_json sent path json else record {
        sent = some sent;
        status = status;
        body = error_body (text "Backend returned " ++ show status);
        logged = log_proxy_failure env path status detail;
      }

  abbrev pub call_backend : Text → List (Text × Text) → Option Text → Handled J
  call_backend path query none = record {
    sent = none;
    status = 500;
    body = error_body (text "Server auth not configured");
    logged = log_proxy_failure env path 500 (text "Server auth not configured");
  }
  call_backend path query (some auth) =
      if is_url (backend_of env)
      then answer (backend_request path query auth) path (fetch (backend_request path query auth))
      else unreachable none path (text "Invalid URL")

  -- `GET`, for the parts of the path and the entries of the query.
  unfoldable pub handle_get : List Text → List (Text × Text) → Handled J
  handle_get parts query =
      if contains allowed_get_paths (join parts)
      then call_backend (join parts) query server_auth
      else record { sent = none; status = 404; body = error_body (text "Not found"); logged = [] }
