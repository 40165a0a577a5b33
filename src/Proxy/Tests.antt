-- ===== src/Proxy/Tests.antt =====
-- A run of the proxy over a small platform.
use royale_ai_platform.Prelude.{true, false, none, some, inr, List, [], ◌∷◌, ◌≡◌, refl}
use royale_ai_platform.Text.{Text, text, text_eq}
use royale_ai_platform.Proxy.{
  Environment, BackendRequest, response, Platform, data_body, handle_get, server_auth,
  backend_request, allowed_query_params, join,
}
use royale_ai_platform.Proxy.Guards.{IsGuarded, handle_get-IsGuarded}

-- A backend that answers every request with the text of its path.
abbrev echo : Platform Text
echo = record {
  btoa = λ t. t;
  is_url = λ t. true;
  fetch = λ request. response 200 request.path (inr request.path);
}

abbrev set_up : Environment
set_up = record {
  bling_admin_username = none;
  admin_username = some (text "ana");
  bling_admin_password = some (text "segredo");
  admin_password = none;
  backend_url = none;
  development = false;
}

abbrev asked : List (Text × Text)
asked = (text "status", text "open") ∷ (text "admin", text "1") ∷ []

-- The entry that is not allowed for orders is not sent.
abbrev sent_orders : BackendRequest
sent_orders = record {
  base = text "http://localhost:8000";
  path = text "orders";
  query = (text "status", text "open") ∷ [];
  authorization = text "Basic ana:segredo";
}

orders_sent : (handle_get echo set_up (text "orders" ∷ []) asked).sent ≡ some sent_orders
unfolding handle_get server_auth backend_request allowed_query_params join text_eq
orders_sent = refl

orders_answered :
    (handle_get echo set_up (text "orders" ∷ []) asked).body ≡ data_body (text "orders")
unfolding handle_get server_auth backend_request allowed_query_params join text_eq
orders_answered = refl

handle_get-IsGuarded_example : IsGuarded echo set_up (text "orders" ∷ []) asked sent_orders
handle_get-IsGuarded_example =
    handle_get-IsGuarded echo set_up (text "orders" ∷ []) asked sent_orders orders_sent
