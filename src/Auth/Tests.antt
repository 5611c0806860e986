-- ===== src/Auth/Tests.antt =====
-- Signing in at concrete inputs.
use mawster.Base.{
  ℕ, ◌<◌, Text, [], ◌∷◌, ◌++◌, Option, none, some, true, false, ◌≡◌, refl, ◌⊎◌, ◌↔◌, codes,
  text_beq, starts_with, if◌then◌else◌,
}
use mawster.Auth.{Token, threw, not_ok, ok, Env, is_usable}
use mawster.Auth.Refresh.{
  refresh_backend_token, discord_fallback, discord_login, subsequent, jwt_callback,
}
use mawster.Auth.Refresh.Fresh.{jwt_callback-IsLive}
use mawster.Auth.Session.{Session, session_callback, synced_session}
use mawster.Auth.Session.User.{IsExpired, IsSynced, session_callback-IsSynced}
use mawster.Auth.Pages.{next, redirect, proxy, guarded, is_path_matching}
use mawster.Auth.Pages.Guard.{may_see, proxy-next, proxy-redirect}
use mawster.Auth.Backend.{
  Request, BackendRequest, BackendResponse, back_proxy, private_proxy, is_public_path,
  backend_request,
}
use mawster.Auth.Backend.Authorized.{back_proxy-jwt_callback}

-- A back end that knows the refresh token `r`, and Discord, which knows `d`.
abbrev env : Env
env = record {
  now = 1000;
  refresh = λ t.
      if text_beq t (codes "r")
      then ok (record { access_token = codes "a2"; refresh_token = some (codes "r2") })
      else not_ok;
  discord_refresh = λ t.
      if text_beq t (codes "d")
      then ok (record { access_token = codes "da"; refresh_token = none })
      else threw;
  auth_discord = λ t. ok (record { access_token = codes "a3"; refresh_token = some (codes "r3") });
  auth_google = λ t. not_ok;
  auth_session = λ t. not_ok;
  decode = λ t. some (record { user_id = codes "u"; role = codes "user" });
}

-- A token of an administrator that ran out at 500.
abbrev old_token : Token
old_token = record {
  id = some (codes "u");
  name = none;
  email = none;
  role = some (codes "admin");
  created_at = none;
  access_token = some (codes "a1");
  backend_refresh_token = some (codes "r");
  discord_refresh_token = some (codes "d");
  access_token_expires = some 500;
  expired = false;
  backend_authenticated = true;
}

refresh_by_discord :
    (refresh_backend_token env
      (record old_token { backend_refresh_token = some (codes "x") })).access_token
    ≡ some (codes "a3")
unfolding refresh_backend_token discord_fallback discord_login text_beq
refresh_by_discord = refl

stays_expired :
    (refresh_backend_token env
      (record old_token { backend_refresh_token = none; discord_refresh_token = none })).expired
    ≡ true
unfolding refresh_backend_token discord_fallback discord_login text_beq
stays_expired = refl

jwt_callback-IsLive_example :
    (is_usable (jwt_callback env none none old_token) ≡ false)
    ⊎ ((n : ℕ) × ((jwt_callback env none none old_token).access_token_expires ≡ some n)
        × (1000 < n))
jwt_callback-IsLive_example = jwt_callback-IsLive env none none old_token

abbrev no_session : Session
no_session = record { access_token = none; user = none; error = none }

session_callback-IsSynced_example :
    ((is_usable old_token ≡ false) × IsExpired (session_callback env old_token no_session))
    ⊎ ((is_usable old_token ≡ true)
        × IsSynced env old_token (session_callback env old_token no_session))
session_callback-IsSynced_example = session_callback-IsSynced env old_token no_session

proxy-next_example :
    (proxy (some old_token) (codes "/login") ≡ next)
    ↔ (may_see (some old_token) (codes "/login") ≡ true)
proxy-next_example = proxy-next (some old_token) (codes "/login")

visitor_redirect :
    proxy none (codes "/game/roster") ≡ redirect (codes "/login") (some (codes "/game/roster"))
unfolding proxy guarded is_path_matching starts_with text_beq
visitor_redirect = refl

proxy-redirect_example : proxy none (codes "/login") ≡ next
proxy-redirect_example =
    proxy-redirect none (codes "/game/roster") (codes "/login") (some (codes "/game/roster"))
      visitor_redirect

admin_page : is_path_matching (codes "/admin/users") (codes "/admin" ∷ []) ≡ true
unfolding is_path_matching starts_with text_beq
admin_page = refl

admin_let_through : proxy (some old_token) (codes "/admin/users") ≡ next
unfolding proxy guarded is_path_matching starts_with text_beq
admin_let_through = refl

abbrev fetch : BackendRequest → Option BackendResponse
fetch sent = none

abbrev roster_request : Request
roster_request = record {
  path = codes "game" ∷ codes "roster" ∷ [];
  search = [];
  method = codes "GET";
  content_type = none;
  body = none;
}

abbrev api_url : Text
api_url = codes "http://api"

abbrev live_session : Session
live_session = record { access_token = some (codes "a1"); user = none; error = none }

roster_sent :
    (back_proxy fetch api_url (some live_session) roster_request).0
    ≡ some (backend_request api_url (some (codes "a1")) roster_request)
unfolding back_proxy private_proxy text_beq
roster_sent = refl

roster_private : is_public_path roster_request ≡ false
unfolding text_beq
roster_private = refl

refreshed_sent :
    (back_proxy fetch api_url
      (some (session_callback env (jwt_callback env none none old_token) no_session))
      roster_request).0
    ≡ some (backend_request api_url (some (codes "a2")) roster_request)
unfolding back_proxy private_proxy text_beq jwt_callback subsequent refresh_backend_token
    session_callback synced_session
refreshed_sent = refl

back_proxy-jwt_callback_example :
    (a : Text) × (n : ℕ) × ((jwt_callback env none none old_token).access_token ≡ some a)
    × (some (codes "Bearer a2") ≡ some (codes "Bearer " ++ a))
    × ((jwt_callback env none none old_token).access_token_expires ≡ some n)
    × (1000 < n)
back_proxy-jwt_callback_example =
    back_proxy-jwt_callback fetch api_url env old_token no_session roster_request
      (backend_request api_url (some (codes "a2")) roster_request) roster_private refreshed_sent
