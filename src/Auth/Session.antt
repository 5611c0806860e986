-- ===== src/Auth/Session.antt =====
-- The `session` callback.
pub mod User
use mawster.Base.{
  Text, Option, none, some, Bool, true, false, not, ◌&&◌, ◌||◌, or_opt, codes, if◌then◌else◌,
}
use mawster.Auth.{Token, Profile, Fetched, threw, not_ok, ok, Env, truthy}

pub record SessionUser : Type 0 where
  pub id : Option Text
  pub name : Option Text
  pub email : Option Text
  pub role : Option Text
  pub discord_id : Option Text
  pub google_id : Option Text
  pub created_at : Option Text

pub record Session : Type 0 where
  pub access_token : Option Text
  pub user : Option SessionUser
  pub error : Option Text

abbrev pub token_expired_error : Text
token_expired_error = codes "TokenExpiredError"

abbrev no_user : SessionUser
no_user = record {
  id = none;
  name = none;
  email = none;
  role = none;
  discord_id = none;
  google_id = none;
  created_at = none;
}

-- `...session.user`
abbrev user_or_empty : Option SessionUser → SessionUser
user_or_empty none = no_user
user_or_empty (some u) = u

abbrev with_profile : Token → Profile → Session → Session
with_profile token profile session = record session {
  access_token = token.access_token;
  user = some (record (user_or_empty session.user) {
    id = or_opt profile.id token.id;
    name = or_opt profile.login token.name;
    email = or_opt profile.email token.email;
    role = or_opt profile.role token.role;
    discord_id = profile.discord_id;
    google_id = profile.google_id;
    created_at = or_opt profile.created_at token.created_at;
  });
}

abbrev without_profile : Token → Session → Session
without_profile token session = record session {
  access_token = token.access_token;
  user = some (record (user_or_empty session.user) { id = token.id; role = token.role });
}

abbrev profile_session : Fetched Profile → Token → Session → Session
profile_session threw token session = without_profile token session
profile_session not_ok token session = without_profile token session
profile_session (ok profile) token session = with_profile token profile session

-- The part behind the check, with the profile fetched where there is an access token.
unfoldable pub synced_session : Env → Token → Session → Session
synced_session env token session = elim (truthy token.access_token) [
  | none ↦ without_profile token session
  | some access_token ↦ profile_session (env.auth_session access_token) token session
]

unfoldable pub session_callback : Env → Token → Session → Session
session_callback env token session =
    if token.expired || not token.backend_authenticated
    then record session { user = none; error = some token_expired_error }
    else synced_session env token session
