-- ===== src/Proxy/Guards.antt =====
-- What the proxy lets through to the backend.
use royale_ai_platform.Prelude.{
  Bool, true, false, Option, none, some, ◌⊎◌, inl, inr, List, [], ◌∷◌, ◌++◌, ◌≡◌, refl, sym, ◌∙◌,
  ◌≢◌, if◌then◌else◌, Bool-cases, filter,
}
use royale_ai_platform.Text.{Text, text}
use royale_ai_platform.Proxy.{
  Environment, BackendRequest, Fetched, failed, response, Platform, contains, allowed_get_paths,
  allowed_query_params, first_of, join, backend_of, is_ok, basic, server_auth, backend_request,
  answer_json, answer, call_backend, handle_get,
}

module _ {J : Type 0} (platform : Platform J) (env : Environment) where
  open platform use {btoa, is_url, fetch}

  -- What is sent is for an allowed path, with the allowed entries of the query alone and with
  -- credentials that are not empty.
  pub record IsGuarded (parts : List Text) (query : List (Text × Text)) (sent : BackendRequest)
      : Type 0 where
    pub path_allowed : contains allowed_get_paths (join parts) ≡ true
    pub path_lem : sent.path ≡ join parts
    pub query_lem :
        sent.query ≡ filter (λ entry. contains (allowed_query_params (join parts)) entry.0) query
    pub user : Text
    pub password : Text
    pub user_given : user ≢ []
    pub password_given : password ≢ []
    pub signed : sent.authorization ≡ text "Basic " ++ btoa (user ++ text ":" ++ password)

  sent-answer_json :
      (sent : BackendRequest) (path : Text) (body : Text ⊎ J)
      → (answer_json platform env sent path body).sent ≡ some sent
  sent-answer_json sent path (inl message) = refl
  sent-answer_json sent path (inr j) = refl

  sent-answer :
      (sent : BackendRequest) (path : Text) (fetched : Fetched J)
      → (answer platform env sent path fetched).sent ≡ some sent
  sent-answer sent path (failed message) = refl
  sent-answer sent path (response status detail body) = elim (Bool-cases (is_ok status)) [
    | inl ok ↦ rw ok (sent-answer_json sent path body)
    | inr not_ok ↦ rw not_ok refl
  ]

  basic-given :
      (user password auth : Text)
      → basic platform env user password ≡ some auth
      → ((user ≢ []) × (password ≢ []))
        × (auth ≡ text "Basic " ++ btoa (user ++ text ":" ++ password))
  basic-given [] password auth h = absurd (cc)
  basic-given (u ∷ user) [] auth h = absurd (cc)
  basic-given (u ∷ user) (p ∷ password) auth h = ((λ e. absurd (cc), λ e. absurd (cc)), cc)

  -- A test that only lets a value through where it holds.
  if_some :
      {A : Type 0} (b : Bool) (o : Option A) (a : A)
      → (if b then o else none) ≡ some a
      → (b ≡ true) × (o ≡ some a)
  if_some true o a h = (refl, h)
  if_some false o a h = absurd (cc)

  sent-call_backend :
      (path : Text) (query : List (Text × Text)) (auth : Text)
      → (call_backend platform env path query (some auth)).sent ≡ (
          if is_url (backend_of env)
          then some (backend_request platform env path query auth)
          else none)
  sent-call_backend path query auth = elim (Bool-cases (is_url (backend_of env))) [
    | inl ok ↦
        rw ok (let r = backend_request platform env path query auth in sent-answer r path (fetch r))
    | inr not_ok ↦ rw not_ok refl
  ]

  call_backend-request :
      (path : Text) (query : List (Text × Text)) (auth : Option Text) (sent : BackendRequest)
      → (call_backend platform env path query auth).sent ≡ some sent
      → (a : Text) × ((auth ≡ some a) × (sent ≡ backend_request platform env path query a))
  call_backend-request path query none sent h = absurd (cc)
  call_backend-request path query (some auth) sent h =
      let is_some : some (backend_request platform env path query auth) ≡ some sent =
        (if_some _ _ sent (sym (sent-call_backend path query auth) ∙ h)).1 in
      (auth, (refl, cc))

  sent-handle_get :
      (parts : List Text) (query : List (Text × Text))
      → (handle_get platform env parts query).sent ≡ (
          if contains allowed_get_paths (join parts)
          then (call_backend platform env (join parts) query (server_auth platform env)).sent
          else none)
  unfolding handle_get
  sent-handle_get parts query = elim (Bool-cases (contains allowed_get_paths (join parts))) [
    | inl ok ↦ rw ok refl
    | inr not_ok ↦ rw not_ok refl
  ]

  guarded :
      (parts : List Text) (query : List (Text × Text)) (auth : Text) (sent : BackendRequest)
      → contains allowed_get_paths (join parts) ≡ true
      → server_auth platform env ≡ some auth
      → sent ≡ backend_request platform env (join parts) query auth
      → IsGuarded parts query sent
  unfolding backend_request server_auth
  guarded parts query auth sent allowed is_auth is_sent =
      let given = basic-given _ _ auth is_auth in
      rw is_sent (record {
        path_allowed = allowed;
        path_lem = refl;
        query_lem = refl;
        user = first_of env.bling_admin_username env.admin_username;
        password = first_of env.bling_admin_password env.admin_password;
        user_given = given.0.0;
        password_given = given.0.1;
        signed = given.1;
      })

  -- Whatever the proxy sends to the backend is for an allowed path, has just the allowed entries of
  -- the query, in their order, and is signed with a user and a password that are not empty.
  pub handle_get-IsGuarded :
      (parts : List Text) (query : List (Text × Text)) (sent : BackendRequest)
      → (handle_get platform env parts query).sent ≡ some sent
      → IsGuarded parts query sent
  handle_get-IsGuarded parts query sent h =
      let let_in = if_some _ _ sent (sym (sent-handle_get parts query) ∙ h) in
      let request =
        call_backend-request (join parts) query (server_auth platform env) sent let_in.1 in
      guarded parts query request.0 sent let_in.0 request.1.0 request.1.1
